-- ===== src/Shell/Fields.antt =====
-- What is printed of a tuple that holds a line of a text file is the line.
use squel.Common.{
  ==_iff, >>=-eq-ok, Bool, Bool-cases, Bytes, List, [], ap, append-nil, append_assoc, arith, at,
  at-get_or, false, get_or, if◌then◌else◌, inl, inr, length, lt→ltb, ok, refl, suc, sym, true, zero,
  ℕ, ◌++◌, ◌+◌, ◌<◌, ◌==◌, ◌>>=◌, ◌∙◌, ◌∷◌, ◌≡◌, ◌≤◌,
}
use squel.Config.{char_max_size, delimiter, lf}
use squel.Io.Files.{}
use squel.Io.Tdb.{}
use squel.Io.TextFile.Lines.{}
use squel.Planner.Plan.{}
use squel.Planner.Result.{ColumnMetadata, ResultSet, column_count}
use squel.Parser.Syntax.{dtype_str}
use squel.Planner.Scan.{count_up}
use squel.Planner.Operator.{}
use squel.Executor.Tuple.{
  Tuple, base, column, column_string, get_tuple_col_by_index, is_casted, max_cols,
}
use squel.Executor.Execution.{}
use squel.Executor.Execution.Loop.{}
use squel.Executor.Statements.{}
use squel.Operators.Source.{All}
use squel.Operators.Project.{}
use squel.Operators.Scan.{}
use squel.Operators.Scan.Fields.{add_first, fields}
use squel.Operators.Scan.Stream.{FitsLine, HoldsLine}
use squel.Shell.Print.{print_fields, print_tuple, tuple_col_value_to_char}

-- Some fields behind another one, and fields with the delimiter between them.
abbrev behind : List Bytes → Bytes
behind [] = []
behind (f ∷ fs) = delimiter ∷ (f ++ behind fs)

abbrev delimited : List Bytes → Bytes
delimited [] = []
delimited (f ∷ fs) = f ++ behind fs

add_first-delimited : (c : ℕ) (fs : List Bytes) → delimited (add_first c fs) ≡ c ∷ delimited fs
add_first-delimited c [] = refl
add_first-delimited c (f ∷ fs) = refl

fields-cons : (text : Bytes) → behind (fields text) ≡ delimiter ∷ delimited (fields text)
unfolding fields
fields-cons [] = refl
fields-cons (c ∷ text) = elim (Bool-cases (c == delimiter)) [
  | inl e ↦ rw e refl
  | inr e ↦ rw e (from_cons (fields text))
]
  where
    from_cons : (fs : List Bytes) → behind (add_first c fs) ≡ delimiter ∷ delimited (add_first c fs)
    from_cons [] = refl
    from_cons (f ∷ fs) = refl

fields-delimited : (text : Bytes) → delimited (fields text) ≡ text
unfolding fields
fields-delimited [] = refl
fields-delimited (c ∷ text) = elim (Bool-cases (c == delimiter)) [
  | inl e ↦
      let same : c ≡ delimiter = (==_iff c delimiter).0 e in
      rw (e, fields-cons text, fields-delimited text, same) refl
  | inr e ↦ rw (e, add_first-delimited c (fields text), fields-delimited text) refl
]

-- A field is printed as it is, if the buffer has room for it.
tuple_col-text :
    (tpl : Tuple) (i : ℕ) (text : Bytes)
    → column_string tpl i ≡ ok text
    → length text < char_max_size
    → tuple_col_value_to_char (base tpl) i dtype_str ≡ ok (text, base tpl)
unfolding tuple_col_value_to_char get_tuple_col_by_index column_string
tuple_col-text tpl i text e short =
    let (block, e₁, e₂) = >>=-eq-ok (column tpl i) _ e in
    rw (e₁, ◌>>=◌, e₂, lt→ltb (length text) char_max_size short) refl

-- The columns from `j` on are active, and the tuple has the fields there, uncast and short.
record Printable (result : ResultSet) (tpl : Tuple) (j : ℕ) (fs : List Bytes) : Type 0 where
  active :
      (i : ℕ)
      → i < length fs
      → (c : ColumnMetadata) × (at result.columns (j + i) ≡ ok c) × (c.active ≡ true)
  uncasted : (i : ℕ) → i < length fs → at tpl.casted (j + i) ≡ ok false
  holds : (i : ℕ) → i < length fs → column_string tpl (j + i) ≡ ok (get_or fs i [])
  short : All (λ (f : Bytes). length f < char_max_size) fs

Printable-rest :
    (result : ResultSet) (tpl : Tuple) (j : ℕ) (f : Bytes) (fs : List Bytes)
    → Printable result tpl j (f ∷ fs)
    → Printable result tpl (j + 1) fs
Printable-rest result tpl j f fs p = record {
  active = λ i h. rw (moved i) at (p.active (suc i) (omega arith));
  uncasted = λ i h. rw (moved i) at (p.uncasted (suc i) (omega arith));
  holds = λ i h. rw (moved i) at (p.holds (suc i) (omega arith));
  short = p.short.1;
}
  where
    moved : (i : ℕ) → j + suc i ≡ j + 1 + i
    moved i = omega arith

-- One more field.
print_fields-field :
    (result : ResultSet) (tpl : Tuple) (j : ℕ) (f : Bytes) (fs : List Bytes) (order : List ℕ)
    (first : Bool) (printed : Bytes)
    → Printable result tpl j (f ∷ fs)
    → print_fields result (j ∷ order) first (base tpl) printed
      ≡ print_fields result order true (base tpl) (printed ++ (if first then b';' ∷ f else f))
unfolding print_fields is_casted
print_fields-field result tpl j f fs order first printed p =
    let here : j + 0 ≡ j = omega arith in
    let (c, found, shown) = p.active 0 (omega arith) in
    let found' : at result.columns j ≡ ok c = rw here at found in
    let casted : at tpl.casted j ≡ ok false = rw here at (p.uncasted 0 (omega arith)) in
    let text : column_string tpl j ≡ ok f = rw here at (p.holds 0 (omega arith)) in
    rw (found', ◌>>=◌, shown, casted, tuple_col-text tpl j f text p.short.0) refl

print_fields-behind :
    (result : ResultSet) (tpl : Tuple) (j : ℕ) (fs : List Bytes) (printed : Bytes)
    → Printable result tpl j fs
    → print_fields result (count_up j (length fs)) true (base tpl) printed
      ≡ ok (base tpl, printed ++ behind fs)
unfolding print_fields
print_fields-behind result tpl j [] printed p =
    ap (λ (t : Bytes). ok (base tpl, t)) (sym (append-nil printed))
print_fields-behind result tpl j (f ∷ fs) printed p =
    print_fields-field result tpl j f fs (count_up (j + 1) (length fs)) true printed p
    ∙ print_fields-behind result tpl (j + 1) fs (printed ++ (b';' ∷ f))
        (Printable-rest result tpl j f fs p)
    ∙ ap (λ (t : Bytes). ok (base tpl, t)) (append_assoc printed (b';' ∷ f) (behind fs))

print_fields-delimited :
    (result : ResultSet) (tpl : Tuple) (fs : List Bytes) (printed : Bytes)
    → Printable result tpl 0 fs
    → print_fields result (count_up 0 (length fs)) false (base tpl) printed
      ≡ ok (base tpl, printed ++ delimited fs)
unfolding print_fields
print_fields-delimited result tpl [] printed p =
    ap (λ (t : Bytes). ok (base tpl, t)) (sym (append-nil printed))
print_fields-delimited result tpl (f ∷ fs) printed p =
    print_fields-field result tpl 0 f fs (count_up 1 (length fs)) false printed p
    ∙ print_fields-behind result tpl 1 fs (printed ++ f) (Printable-rest result tpl 0 f fs p)
    ∙ ap (λ (t : Bytes). ok (base tpl, t)) (append_assoc printed f (behind fs))

-- All columns are active, in their order.
pub record IsWhole (result : ResultSet) : Type 0 where
  pub active : All (λ (c : ColumnMetadata). c.active ≡ true) result.columns
  pub order : result.column_order ≡ count_up 0 (column_count result)
  pub some_column : 0 < column_count result

-- A line has a field for each column, which the buffer has room for.
abbrev pub PrintableLine : ResultSet → Bytes → Type 0
PrintableLine result line =
    (length (fields line) ≡ column_count result)
    × All (λ (f : Bytes). length f < char_max_size) (fields line)

column_at :
    (columns : List ColumnMetadata) (i : ℕ)
    → All (λ (c : ColumnMetadata). c.active ≡ true) columns
    → i < length columns
    → (c : ColumnMetadata) × (at columns i ≡ ok c) × (c.active ≡ true)
unfolding at
column_at [] i all h = absurd (omega arith)
column_at (c ∷ columns) zero all h = (c, refl, all.0)
column_at (c ∷ columns) (suc i) all h = column_at columns i all.1 (omega arith)

HoldsLine-Printable :
    (result : ResultSet) (line : Bytes) (tpl : Tuple)
    → IsWhole result
    → PrintableLine result line
    → FitsLine tpl
    → HoldsLine line tpl
    → length (fields line) ≤ max_cols
    → Printable result tpl 0 (fields line)
HoldsLine-Printable result line tpl whole (same, short) fits (size, type, strings, uncasted) few =
    record {
      active =
          λ i h. rw (from_zero i) (column_at result.columns i whole.active (omega (arith, same)));
      uncasted = λ i h.
          rw (from_zero i)
            (at-get_or tpl.casted i false (omega (arith, fits.0.casted)) ∙ ap ok (uncasted i));
      holds = λ i h. rw (from_zero i) (strings i h);
      short = short;
    }
  where
    from_zero : (i : ℕ) → 0 + i ≡ i
    from_zero i = omega arith

-- One line is printed with its line feed.
pub print_tuple-line :
    (result : ResultSet) (line : Bytes) (tpl : Tuple) (printed : Bytes)
    → IsWhole result
    → PrintableLine result line
    → FitsLine tpl
    → HoldsLine line tpl
    → length (fields line) ≤ max_cols
    → print_tuple result printed (base tpl) ≡ ok (base tpl, printed ++ (line ++ lf ∷ []))
unfolding print_tuple print_fields
print_tuple-line result line tpl printed whole able fits holds few =
    let all : print_fields result (count_up 0 (length (fields line))) false (base tpl) printed
        ≡ ok (base tpl, printed ++ line) =
      print_fields-delimited result tpl (fields line) printed
        (HoldsLine-Printable result line tpl whole able fits holds few)
      ∙ ap (λ (t : Bytes). ok (base tpl, printed ++ t)) (fields-delimited line) in
    rw (whole.order, ← able.0, all, ◌>>=◌)
      (ap (λ (t : Bytes). ok (base tpl, t)) (append_assoc printed line (lf ∷ [])))
