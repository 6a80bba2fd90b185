-- ===== src/Planner/Catalog/Types.antt =====
-- The types of a text file's columns are those of its second line.
use squel.Common.{
  Bool-cases, Bytes, List, [], ap, append-nil, append_assoc, arith, drop, false, fault,
  if◌then◌else◌, inl, inr, length, length-append, length-replicate, le→not_ltb, lt→ltb, map, ok,
  out_of_bounds, refl, replicate, suc, sym, true, ℕ, ◌++◌, ◌+◌, ◌<◌, ◌==◌, ◌>>=◌, ◌∙◌, ◌∷◌, ◌≡◌,
  ◌≤◌,
}
use squel.Config.{array_max_size, delimiter, lf, line_buff}
use squel.Parser.Syntax.{Datatype, dtype_long, dtype_str}
use squel.Parser.Text.{is_numeric}
use squel.Io.Files.{}
use squel.Io.Tdb.{}
use squel.Io.TextFile.{read_line, store_string}
use squel.Io.TextFile.Lines.{IsLine, NoZero-snoc, fgets-line, remove_lf-line}
use squel.Executor.Tuple.{}
use squel.Executor.Tuple.Strings.{c_string-terminated}
use squel.Planner.Catalog.{add_type, all_numeric, infer_datatype, types_loop}
use squel.Planner.Catalog.Columns.{continued, continued-add_first, continued_nil}
use squel.Operators.Source.{All}
use squel.Operators.Scan.Fields.{fields, terminated}
use squel.Operators.Scan.Stream.{}

-- The type of a column with such a field.
abbrev pub type_of : Bytes → Datatype
type_of f = if all_numeric f then dtype_long else dtype_str

abbrev pub ShortItem : ℕ → Bytes → Type 0
ShortItem size f = length f < size

add_type-type_of :
    (size : ℕ) (types : List Datatype) (item : Bytes)
    → length types < array_max_size
    → ShortItem size item
    → add_type size types item ≡ ok (types ++ type_of item ∷ [])
unfolding add_type infer_datatype
add_type-type_of size types item room short = elim (Bool-cases (all_numeric item)) [
  | inl e ↦
      rw (lt→ltb (length types) array_max_size room, e, ◌>>=◌, lt→ltb (length item) size short) refl
  | inr e ↦ rw (lt→ltb (length types) array_max_size room, e, ◌>>=◌) refl
]

pub types_loop-fields :
    (size : ℕ) (line : Bytes) (types : List Datatype) (item : Bytes)
    → length types + length (continued item (fields line)) ≤ array_max_size
    → All (ShortItem size) (continued item (fields line))
    → types_loop delimiter size line types item
      ≡ ok (types ++ map type_of (continued item (fields line)))
unfolding types_loop fields
types_loop-fields size [] types item few short =
    let short' : ShortItem size item = rw append-nil at (short.0) in
    add_type-type_of size types item (omega arith) short'
    ∙ ap (λ (t : Bytes). ok (types ++ type_of t ∷ [])) (sym (append-nil item))
types_loop-fields size (c ∷ line) types item few short = elim (Bool-cases (c == delimiter)) [
  | inl e ↦
      let few' : length types + length (continued item ([] ∷ fields line)) ≤ array_max_size =
        rw e at few in
      let short' : All (ShortItem size) (continued item ([] ∷ fields line)) = rw e at short in
      let nil = continued_nil line in
      let ended : ShortItem size item = rw append-nil at (short'.0) in
      let longer = length-append types (type_of item ∷ []) in
      let room : length (types ++ type_of item ∷ []) + length (continued [] (fields line))
          ≤ array_max_size =
        rw nil (omega (arith, longer, few')) in
      let ih = types_loop-fields size line (types ++ type_of item ∷ []) [] room (rw nil short'.1) in
      rw
        (
          e,
          types_loop,
          add_type-type_of size types item (omega (arith, few')) ended,
          ◌>>=◌,
          ih,
          nil,
        )
        (ap (λ (t : List Datatype). ok t)
            (append_assoc types (type_of item ∷ []) (map type_of (fields line)))
          ∙ ap (λ (t : Bytes). ok (types ++ type_of t ∷ map type_of (fields line)))
              (sym (append-nil item)))
  | inr e ↦
      let same = continued-add_first item c (fields line) in
      let few' : length types + length (continued (item ++ c ∷ []) (fields line)) ≤ array_max_size =
        rw (← same) (rw e at few) in
      let short' : All (ShortItem size) (continued (item ++ c ∷ []) (fields line)) =
        rw (← same) (rw e at short) in
      rw (e, types_loop, types_loop-fields size line types (item ++ c ∷ []) few' short', same) refl
]

-- A line is read whole.
pub read_line-line :
    (line rest : Bytes) → IsLine line → read_line (line ++ lf ∷ rest) ≡ ok (line, rest)
unfolding read_line store_string
read_line-line line rest h =
    let size : length (line ++ lf ∷ []) ≡ length line + 1 =
      omega (arith, length-append line (lf ∷ [])) in
    let zeros = length-replicate {A = ℕ} line_buff 0 in
    let others = drop (length (line ++ lf ∷ []) + 1) (replicate {A = ℕ} line_buff 0) in
    rw
      (
        fgets-line line_buff line rest h.no_lf (omega (arith, h.short)),
        read_line,
        lt→ltb (length (line ++ lf ∷ [])) (length (replicate {A = ℕ} line_buff 0))
            (omega (arith, size, zeros, h.short)),
        ◌>>=◌,
        c_string-terminated (line ++ lf ∷ []) others (NoZero-snoc line lf h.no_zero (omega arith)),
        lt→ltb (length (line ++ lf ∷ [])) line_buff (omega (arith, size, h.short)),
        remove_lf-line line others h.no_zero,
        c_string-terminated line (0 ∷ others) h.no_zero,
      )
      refl

length-terminated : (fs : List Bytes) → length fs ≤ length (terminated fs)
length-terminated [] = omega arith
length-terminated (f ∷ fs) =
    omega (arith, length-terminated fs, length-append f (0 ∷ terminated fs))

-- With other fields beside it, each field is shorter than its line.
pub fields_short :
    (fs : List Bytes) (before size : ℕ)
    → before + length (terminated fs) ≤ suc size
    → 2 ≤ before + length fs
    → All (ShortItem size) fs
fields_short [] before size h k = tt
fields_short (f ∷ fs) before size h k =
    let whole = length-append f (0 ∷ terminated fs) in
    let others = length-terminated fs in
    (
      omega (arith, whole, others, h, k),
      fields_short fs (before + length f + 1) size (omega (arith, whole, h)) (omega (arith, k)),
    )

abbrev pub AllDigits : Bytes → Type 0
AllDigits [] = Unit
AllDigits (c ∷ s) = (is_numeric c ≡ true) × AllDigits s

digits_numeric : (s : Bytes) → AllDigits s → all_numeric s ≡ true
digits_numeric [] h = refl
digits_numeric (c ∷ s) h = rw (h.0, digits_numeric s h.1) refl

digit_other : (c : ℕ) → is_numeric c ≡ true → (c == delimiter) ≡ false
digit_other c h = ground arith

AllDigits-snoc : (s : Bytes) (c : ℕ) → AllDigits s → is_numeric c ≡ true → AllDigits (s ++ c ∷ [])
AllDigits-snoc [] c h k = (k, tt)
AllDigits-snoc (d ∷ s) c h k = (h.0, AllDigits-snoc s c h.1 k)

-- A line without a delimiter goes to the buffer of its length as a whole.
pub digits_over-read :
    (size : ℕ) (s item : Bytes)
    → size ≡ length item + length s
    → AllDigits s
    → AllDigits item
    → types_loop delimiter size s [] item ≡ fault out_of_bounds
unfolding types_loop add_type infer_datatype
digits_over-read size [] item e h k =
    rw (digits_numeric item k, ◌>>=◌, le→not_ltb (length item) size (omega (arith, e))) refl
digits_over-read size (c ∷ s) item e h k =
    rw (digit_other c h.0, types_loop)
      (digits_over-read size s (item ++ c ∷ []) (omega (arith, e, length-append item (c ∷ []))) h.1
        (AllDigits-snoc item c k h.0))
