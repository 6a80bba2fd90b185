-- ===== src/Planner/Catalog/Columns.antt =====
-- The columns of a text file are the fields of its first line, and their types those of its second.
use squel.Common.{
  Bool-cases, Bytes, List, [], ap, append-nil, append_assoc, arith, inl, inr, length, length-append,
  lt→ltb, ok, refl, sym, ℕ, ◌++◌, ◌+◌, ◌<◌, ◌==◌, ◌>>=◌, ◌∷◌, ◌≡◌, ◌≤◌,
}
use squel.Config.{array_max_size, char_max_size, delimiter}
use squel.Parser.Syntax.{}
use squel.Io.Files.{}
use squel.Io.Tdb.{}
use squel.Io.TextFile.{}
use squel.Io.TextFile.Lines.{}
use squel.Executor.Tuple.{}
use squel.Executor.Tuple.Strings.{}
use squel.Planner.Catalog.{names_loop}
use squel.Operators.Source.{All}
use squel.Operators.Scan.Fields.{add_first, fields}
use squel.Operators.Scan.Stream.{}

-- Fields whose first one goes on from some characters.
abbrev pub continued : Bytes → List Bytes → List Bytes
continued name [] = name ∷ []
continued name (f ∷ fs) = (name ++ f) ∷ fs

pub continued-add_first :
    (name : Bytes) (c : ℕ) (fs : List Bytes)
    → continued name (add_first c fs) ≡ continued (name ++ c ∷ []) fs
continued-add_first name c [] = refl
continued-add_first name c (f ∷ fs) =
    ap (λ (t : Bytes). t ∷ fs) (sym (append_assoc name (c ∷ []) f))

pub length-continued : (name : Bytes) (fs : List Bytes) → 0 < length (continued name fs)
length-continued name [] = omega arith
length-continued name (f ∷ fs) = omega arith

abbrev pub ShortName : Bytes → Type 0
ShortName f = length f + 1 < char_max_size

-- A first field that is short has a short start.
start_short : (name : Bytes) (fs : List Bytes) → All ShortName (continued name fs) → ShortName name
start_short name [] h = h.0
start_short name (f ∷ fs) h = omega (arith, h.0, length-append name f)

pub continued_nil : (text : Bytes) → continued [] (fields text) ≡ fields text
unfolding fields
continued_nil [] = refl
continued_nil (c ∷ text) = elim (Bool-cases (c == delimiter)) [
  | inl e ↦ rw e refl
  | inr e ↦ rw e (kept (fields text))
]
  where
    kept : (fs : List Bytes) → continued [] (add_first c fs) ≡ add_first c fs
    kept [] = refl
    kept (f ∷ fs) = refl

pub names_loop-fields :
    (header : Bytes) (names : List Bytes) (name : Bytes)
    → length names + length (continued name (fields header)) ≤ array_max_size
    → All ShortName (continued name (fields header))
    → names_loop delimiter header names name ≡ ok (names ++ continued name (fields header))
unfolding names_loop fields
names_loop-fields [] names name few short =
    ap (λ (t : Bytes). ok (names ++ t ∷ [])) (sym (append-nil name))
names_loop-fields (c ∷ header) names name few short = elim (Bool-cases (c == delimiter)) [
  | inl e ↦
      let few' : length names + length (continued name ([] ∷ fields header)) ≤ array_max_size =
        rw e at few in
      let short' : All ShortName (continued name ([] ∷ fields header)) = rw e at short in
      let nil = continued_nil header in
      let some_field : 0 < length (fields header) =
        rw nil at (length-continued [] (fields header)) in
      let longer = length-append names (name ∷ []) in
      let room : length (names ++ name ∷ []) + length (continued [] (fields header))
          ≤ array_max_size =
        rw nil (omega (arith, longer, few')) in
      let ih = names_loop-fields header (names ++ name ∷ []) [] room (rw nil short'.1) in
      let unended : ShortName name = rw append-nil at (short'.0) in
      rw
        (
          e,
          lt→ltb (length names + 1) array_max_size (omega (arith, few', some_field)),
          lt→ltb (length name + 1) char_max_size unended,
          ◌>>=◌,
          ih,
          nil,
          append-nil,
        )
        (ap (λ (t : List Bytes). ok t) (append_assoc names (name ∷ []) (fields header)))
  | inr e ↦
      let same = continued-add_first name c (fields header) in
      let few' : length names + length (continued (name ++ c ∷ []) (fields header))
          ≤ array_max_size =
        rw (← same) (rw e at few) in
      let short' : All ShortName (continued (name ++ c ∷ []) (fields header)) =
        rw (← same) (rw e at short) in
      let ih = names_loop-fields header names (name ++ c ∷ []) few' short' in
      let start = start_short (name ++ c ∷ []) (fields header) short' in
      let longer = length-append name (c ∷ []) in
      let some_field = length-continued (name ++ c ∷ []) (fields header) in
      rw
        (
          e,
          lt→ltb (length names) array_max_size (omega (arith, few', some_field)),
          lt→ltb (length name) char_max_size (omega (arith, start, longer)),
          ◌>>=◌,
          ih,
          same,
        )
        refl
]
