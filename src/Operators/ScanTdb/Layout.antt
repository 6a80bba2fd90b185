-- ===== src/Operators/ScanTdb/Layout.antt =====
-- The columns of a tuple that `scanTDBGetTuple` has placed.
use native.Mathlib.Nat.{zero-add}
use squel.Common.{
  Bool, List, [], ap, arith, false, get_or, get_or-set_ne, get_or-set_self, if◌then◌else◌, inl, inr,
  length, length-set, lt→ltb, ok, refl, set, suc, true, zero, ℕ, ◌+◌, ◌<◌, ◌>>=◌, ◌∙◌, ◌∷◌, ◌≡◌,
  ◌≤◌, ◌⊎◌,
}
use squel.Executor.Tuple.Strings.{HasArrays}
use squel.Executor.Tuple.{Tuple, column, max_cols, tpl_tdb}
use squel.Planner.Result.{ColumnMetadata}
use squel.Operators.ScanTdb.{lay_columns, lay_out}

-- Where column `i` of a record starts, and where the record ends.
abbrev pub start_of : List ColumnMetadata → ℕ → ℕ
start_of [] i = 0
start_of (column ∷ columns) zero = 0
start_of (column ∷ columns) (suc i) = column.size + start_of columns i

abbrev pub total_size : List ColumnMetadata → ℕ
total_size [] = 0
total_size (column ∷ columns) = column.size + total_size columns

-- The columns from place `i` on, of which the first starts at `start`, have their offsets and count
-- as numbers. The tuple is `tpl` but for them.
pub record Placed (i start : ℕ) (columns : List ColumnMetadata) (tpl out : Tuple) : Type 0 where
  pub block : out.block ≡ tpl.block
  pub type : out.type ≡ tpl.type
  pub size : out.size ≡ start + total_size columns
  pub laid : out.tdb_offsets ≡ true
  pub arrays : HasArrays out
  pub kept :
      (j : ℕ)
      → j < i
      → (get_or out.offsets j 0 ≡ get_or tpl.offsets j 0)
        × (get_or out.casted j false ≡ get_or tpl.casted j false)
  pub placed :
      (j : ℕ)
      → j < length columns
      → (get_or out.offsets (i + j) 0 ≡ start + start_of columns j)
        × (get_or out.casted (i + j) false ≡ true)

-- The first column was placed before the others.
Placed-step :
    (i start : ℕ) (c : ColumnMetadata) (columns : List ColumnMetadata) (tpl tpl' out : Tuple)
    → Placed (i + 1) (start + c.size) columns tpl' out
    → get_or tpl'.offsets i 0 ≡ start
    → get_or tpl'.casted i false ≡ true
    → (j : ℕ) → j < length (c ∷ columns)
    → (get_or out.offsets (i + j) 0 ≡ start + start_of (c ∷ columns) j)
      × (get_or out.casted (i + j) false ≡ true)
Placed-step i start c columns tpl tpl' out p offset cast zero h =
    let k = p.kept i (omega arith) in
    let e : i + 0 ≡ i = omega arith in rw e (omega (arith, k.0, offset), k.1 ∙ cast)
Placed-step i start c columns tpl tpl' out p offset cast (suc j) h =
    let k = p.placed j (omega arith) in
    let e : i + suc j ≡ i + 1 + j = omega arith in rw e (omega (arith, k.0), k.1)

lay_columns-Placed :
    (i start : ℕ) (columns : List ColumnMetadata) (tpl : Tuple)
    → HasArrays tpl
    → i + length columns ≤ max_cols
    → (out : Tuple) × (lay_columns i start columns tpl ≡ ok out) × Placed i start columns tpl out
unfolding lay_columns
lay_columns-Placed i start [] tpl arrays room = (
  record tpl { size = start; tdb_offsets = true },
  refl,
  record {
    block = refl;
    type = refl;
    size = omega arith;
    laid = refl;
    arrays = record { offsets = arrays.offsets; casted = arrays.casted };
    kept = λ j h. (refl, refl);
    placed = λ j h. absurd (omega arith);
  },
)
lay_columns-Placed i start (c ∷ columns) tpl arrays room =
    let tpl' : Tuple = record tpl {
      offsets = set tpl.offsets i start;
      casted = set tpl.casted i true;
      sizes = set tpl.sizes i c.size;
    } in
    let (out, run, p) =
      lay_columns-Placed (i + 1) (start + c.size) columns tpl'
        (record {
          offsets = omega (arith, length-set tpl.offsets i start, arrays.offsets);
          casted = length-set tpl.casted i true ∙ arrays.casted;
        })
        (omega arith) in
    let offset = get_or-set_self tpl.offsets i start 0 (omega (arith, arrays.offsets)) in
    let cast = get_or-set_self tpl.casted i true false (omega (arith, arrays.casted)) in
    (
      out,
      rw (lt→ltb i max_cols (omega arith), ◌>>=◌) run,
      record {
        block = p.block;
        type = p.type;
        size = omega (arith, p.size);
        laid = p.laid;
        arrays = p.arrays;
        kept = λ j h.
            let k = p.kept j (omega arith) in
            (
              k.0 ∙ get_or-set_ne tpl.offsets i j start 0 (λ e. omega (arith, e)),
              k.1 ∙ get_or-set_ne tpl.casted i j true false (λ e. omega (arith, e)),
            );
        placed = Placed-step i start c columns tpl tpl' out p offset cast;
      },
    )

-- A tuple whose columns are those of a record of the table.
pub record IsLaidOut (columns : List ColumnMetadata) (tpl : Tuple) : Type 0 where
  pub type : tpl.type ≡ tpl_tdb
  pub size : tpl.size ≡ total_size columns
  pub laid : tpl.tdb_offsets ≡ true
  pub arrays : HasArrays tpl
  pub placed :
      (j : ℕ)
      → j < length columns
      → (get_or tpl.offsets j 0 ≡ start_of columns j) × (get_or tpl.casted j false ≡ true)

-- What a scan expects of the tuple that it is to fill: one that has not been laid out, or was by it.
abbrev pub Fillable : List ColumnMetadata → Tuple → Type 0
Fillable columns tpl = HasArrays tpl × ((tpl.tdb_offsets ≡ false) ⊎ IsLaidOut columns tpl)

pub lay_out-IsLaidOut :
    (columns : List ColumnMetadata) (tpl : Tuple)
    → Fillable columns tpl
    → length columns ≤ max_cols
    → (out : Tuple) × (lay_out columns tpl ≡ ok out)
      × IsLaidOut columns out
      × (out.block ≡ tpl.block)
unfolding lay_out
lay_out-IsLaidOut columns tpl (arrays, inl fresh) room =
    let typed : Tuple = record tpl { type = tpl_tdb } in
    let (out, run, p) =
      lay_columns-Placed 0 0 columns typed
        (record { offsets = arrays.offsets; casted = arrays.casted }) (omega arith) in
    (
      out,
      ap (λ (b : Bool). if b then ok typed else lay_columns 0 0 columns typed) fresh ∙ run,
      record {
        type = p.type;
        size = omega (arith, p.size);
        laid = p.laid;
        arrays = p.arrays;
        placed = λ j h.
            let k = p.placed j h in (omega (arith, rw (zero-add j) at k.0), rw (zero-add j) at k.1);
      },
      p.block,
    )
lay_out-IsLaidOut columns tpl (arrays, inr l) room = (
  record tpl { type = tpl_tdb },
  ap
      (λ (b : Bool).
        if b
        then ok (record tpl { type = tpl_tdb })
        else lay_columns 0 0 columns (record tpl { type = tpl_tdb }))
      l.laid,
  record {
    type = refl;
    size = l.size;
    laid = l.laid;
    arrays = record { offsets = arrays.offsets; casted = arrays.casted };
    placed = l.placed;
  },
  refl,
)
