-- ===== src/Operators/Scan/Split.antt =====
-- A line is split into its fields, each a string at its column's offset.
use squel.Common.{
  Bool, Bytes, List, [], ap, append_assoc, arith, drop, drop-length-append, false, get_or,
  get_or-set_ne, get_or-set_self, inl, inr, leb, length, length-append, length-set, le→leb, none,
  ok, refl, set, some, suc, sym, true, zero, ℕ, ◌++◌, ◌+◌, ◌<◌, ◌>>=◌, ◌∙◌, ◌∷◌, ◌≡◌, ◌≤◌,
}
use squel.Config.{delimiter}
use squel.Executor.Tuple.{Tuple, c_string, max_cols}
use squel.Executor.Tuple.Strings.{HasArrays, NoZero, NoZero-append, c_string-terminated}
use squel.Io.TextFile.Lines.{set-middle}
use squel.Operators.Scan.Fields.{First-field, field_start, fields, terminated}
use squel.Operators.Scan.{find_delimiter, split_loop}

-- The columns from place `i` on are the fields `fs`, which lie behind `done` in the block.
pub record IsSplit (i : ℕ) (fs : List Bytes) (done rest : Bytes) (tpl out : Tuple) : Type 0 where
  pub block : out.block ≡ done ++ (terminated fs ++ rest)
  pub size : out.size ≡ length done + length (terminated fs)
  pub type : out.type ≡ tpl.type
  pub arrays : HasArrays out
  pub uncasted :
      ((j : ℕ) → get_or tpl.casted j false ≡ false) → (j : ℕ) → get_or out.casted j false ≡ false
  pub kept : (j : ℕ) → j < i → get_or out.offsets j 0 ≡ get_or tpl.offsets j 0
  pub placed :
      (j : ℕ) → j < length fs → get_or out.offsets (i + j) 0 ≡ length done + field_start fs j

-- The field at place `i` was placed before the others.
Placed-step :
    (i start : ℕ) (f : Bytes) (fs : List Bytes) (offsets : List ℕ)
    → get_or offsets i 0 ≡ start
    → ((j : ℕ)
        → j < length fs
        → get_or offsets (i + 1 + j) 0 ≡ start + (length f + 1) + field_start fs j)
    → (j : ℕ) → j < length (f ∷ fs)
    → get_or offsets (i + j) 0 ≡ start + field_start (f ∷ fs) j
Placed-step i start f fs offsets first others zero h =
    let e : i + 0 ≡ i = omega arith in rw e (omega (arith, first))
Placed-step i start f fs offsets first others (suc j) h =
    let e : i + suc j ≡ i + 1 + j = omega arith in rw e (omega (arith, others j (omega arith)))

-- The string at a place of the block.
string_at :
    (done text rest block : Bytes)
    → block ≡ done ++ (text ++ 0 ∷ rest)
    → NoZero text
    → (leb (length done) (length block) ≡ true) × (c_string (drop (length done) block) ≡ ok text)
string_at done text rest block e nz = (
  le→leb (length done) (length block) (rw e (omega (arith, length-append done (text ++ 0 ∷ rest)))),
  rw (e, drop-length-append done (text ++ 0 ∷ rest)) (c_string-terminated text rest nz),
)

set-uncasted :
    (casted : List Bool) (i : ℕ)
    → ((j : ℕ) → get_or casted j false ≡ false)
    → (j : ℕ) → get_or (set casted i false) j false ≡ false
set-uncasted [] i h j = h j
set-uncasted (b ∷ casted) zero h zero = refl
set-uncasted (b ∷ casted) zero h (suc j) = h (suc j)
set-uncasted (b ∷ casted) (suc i) h zero = h zero
set-uncasted (b ∷ casted) (suc i) h (suc j) = set-uncasted casted i (λ k. h (suc k)) j

IsSplit-last :
    (left i : ℕ) (text done rest : Bytes) (tpl : Tuple)
    → find_delimiter text ≡ none
    → NoZero text
    → HasArrays tpl
    → tpl.block ≡ done ++ (text ++ 0 ∷ rest)
    → i < max_cols
    → (out : Tuple) × (split_loop (suc left) i (length done) (length done) tpl ≡ ok out)
      × IsSplit i (text ∷ []) done rest tpl out
unfolding split_loop
IsSplit-last left i text done rest tpl e nz arrays block room =
    let (inside, found) = string_at done text rest tpl.block block nz in
    (
      record tpl {
        sizes = set tpl.sizes i (length text + 1);
        offsets = set tpl.offsets i (length done);
        casted = set tpl.casted i false;
        size = length done + (length text + 1);
      },
      rw (inside, ◌>>=◌, found, e),
      record {
        block = block ∙ ap (λ (t : Bytes). done ++ t) (sym (append_assoc text (0 ∷ []) rest));
        size = omega (arith, length-append text (0 ∷ []));
        type = refl;
        arrays = record {
          offsets = length-set tpl.offsets i (length done) ∙ arrays.offsets;
          casted = length-set tpl.casted i false ∙ arrays.casted;
        };
        uncasted = set-uncasted tpl.casted i;
        kept = λ j h. get_or-set_ne tpl.offsets i j (length done) 0 (λ e. omega (arith, e));
        placed =
            Placed-step i (length done) text [] (set tpl.offsets i (length done))
              (get_or-set_self tpl.offsets i (length done) 0 (omega (arith, arrays.offsets)))
              (λ j h. absurd (omega arith));
      },
    )

-- The tuple behind a round that found the delimiter behind the field `f`.
abbrev behind_field : ℕ → Bytes → Bytes → Tuple → Tuple
behind_field i f done tpl = record tpl {
  block = set tpl.block (length done + length f) 0;
  sizes = set tpl.sizes i (length f + 1);
  offsets = set tpl.offsets i (length done);
  casted = set tpl.casted i false;
}

abbrev with_field : Bytes → Bytes → Bytes
with_field done f = done ++ (f ++ 0 ∷ [])

behind_field-block :
    (i : ℕ) (f more done rest : Bytes) (tpl : Tuple)
    → tpl.block ≡ done ++ ((f ++ delimiter ∷ more) ++ 0 ∷ rest)
    → (behind_field i f done tpl).block ≡ with_field done f ++ (more ++ 0 ∷ rest)
behind_field-block i f more done rest tpl block =
    let front : tpl.block ≡ (done ++ f) ++ delimiter ∷ (more ++ 0 ∷ rest) =
      block ∙ simp append_assoc in
    rw (front, ← length-append done f)
      (set-middle (done ++ f) (more ++ 0 ∷ rest) delimiter 0 ∙ simp append_assoc)

IsSplit-more :
    (left i : ℕ) (f more done rest : Bytes) (tpl out : Tuple)
    → find_delimiter (f ++ delimiter ∷ more) ≡ some (length f)
    → NoZero (f ++ delimiter ∷ more)
    → HasArrays tpl
    → tpl.block ≡ done ++ ((f ++ delimiter ∷ more) ++ 0 ∷ rest)
    → i < max_cols
    → split_loop left
        (i + 1)
        (length (with_field done f))
        (length (with_field done f))
        (behind_field i f done tpl)
      ≡ ok out
    → IsSplit (i + 1) (fields more) (with_field done f) rest (behind_field i f done tpl) out
    → (split_loop (suc left) i (length done) (length done) tpl ≡ ok out)
      × IsSplit i (f ∷ fields more) done rest tpl out
unfolding split_loop
IsSplit-more left i f more done rest tpl out e nz arrays block room run p =
    let (inside, found) = string_at done (f ++ delimiter ∷ more) rest tpl.block block nz in
    let further : length (with_field done f) ≡ length done + (length f + 1) =
      omega (arith, length-append done (f ++ 0 ∷ []), length-append f (0 ∷ [])) in
    (
      rw (inside, ◌>>=◌, found, e, ← further) run,
      record {
        block = p.block ∙ simp append_assoc;
        size = omega (arith, p.size, further, length-append f (0 ∷ terminated (fields more)));
        type = p.type;
        arrays = p.arrays;
        uncasted = λ h. p.uncasted (set-uncasted tpl.casted i h);
        kept = λ j h.
            p.kept j (omega arith)
            ∙ get_or-set_ne tpl.offsets i j (length done) 0 (λ e. omega (arith, e));
        placed =
            Placed-step i (length done) f (fields more) out.offsets
              (p.kept i (omega arith)
                ∙ get_or-set_self tpl.offsets i (length done) 0 (omega (arith, arrays.offsets)))
              (λ j h. omega (arith, p.placed j h, further));
      },
    )

-- In a tuple whose block has a line at some place, and whose arrays have room for the fields from
-- place `i` on, the loop splits the line.
pub split_loop-IsSplit :
    (left i : ℕ) (text done rest : Bytes) (tpl : Tuple)
    → NoZero text
    → HasArrays tpl
    → tpl.block ≡ done ++ (text ++ 0 ∷ rest)
    → length (fields text) ≤ left
    → i + left ≤ max_cols
    → (out : Tuple) × (split_loop left i (length done) (length done) tpl ≡ ok out)
      × IsSplit i (fields text) done rest tpl out
split_loop-IsSplit zero i text done rest tpl nz arrays block few room = elim (First-field text) [
  | inl (e, e') ↦ absurd (omega (arith, ap (λ (t : List Bytes). length t) e'))
  | inr (f, more, same, e, e') ↦ absurd (omega (arith, ap (λ (t : List Bytes). length t) e'))
]
split_loop-IsSplit (suc left) i text done rest tpl nz arrays block few room =
    elim (First-field text) [
      | inl (e, e') ↦ rw e' (IsSplit-last left i text done rest tpl e nz arrays block (omega arith))
      | inr (f, more, same, e, e') ↦
          let block' : tpl.block ≡ done ++ ((f ++ delimiter ∷ more) ++ 0 ∷ rest) =
            rw same at block in
          let nz' : NoZero (f ++ delimiter ∷ more) = rw same at nz in
          let few' : length (fields more) ≤ left =
            omega (arith, ap (λ (t : List Bytes). length t) e') in
          let (out, run, p) =
            split_loop-IsSplit left (i + 1) more (with_field done f) rest
              (behind_field i f done tpl) (NoZero-append f (delimiter ∷ more) nz').1.1
              (record {
                offsets = length-set tpl.offsets i (length done) ∙ arrays.offsets;
                casted = length-set tpl.casted i false ∙ arrays.casted;
              })
              (behind_field-block i f more done rest tpl block') few' (omega arith) in
          let (run', split') =
            IsSplit-more left i f more done rest tpl out (rw same at e) nz' arrays block'
              (omega arith) run p in
          rw e' (out, run', split')
    ]
