-- ===== src/Operators/Scan/Fields.antt =====
-- The fields of a line, in the text and in memory.
use squel.Common.{
  ==_iff, Bool-cases, Bytes, List, [], ap, append_assoc, arith, drop, false, get_or, if◌then◌else◌,
  inl, inr, length, length-append, none, ok, refl, some, suc, zero, ℕ, ◌++◌, ◌+◌, ◌<◌, ◌==◌, ◌∷◌,
  ◌≡◌, ◌≤◌, ◌⊎◌,
}
use squel.Config.{delimiter}
use squel.Executor.Tuple.{c_string}
use squel.Executor.Tuple.Strings.{NoZero, c_string-terminated}
use squel.Operators.Scan.{find_delimiter}

abbrev pub add_first : ℕ → List Bytes → List Bytes
add_first c [] = (c ∷ []) ∷ []
add_first c (f ∷ fs) = (c ∷ f) ∷ fs

-- The fields of a line, between the delimiters.
unfoldable pub fields : Bytes → List Bytes
fields [] = [] ∷ []
fields (c ∷ text) = let rest = fields text in if c == delimiter then [] ∷ rest else add_first c rest

-- The fields in memory, each with its terminator, and where one of them starts.
abbrev pub terminated : List Bytes → Bytes
terminated [] = []
terminated (f ∷ fs) = f ++ 0 ∷ terminated fs

abbrev pub field_start : List Bytes → ℕ → ℕ
field_start [] j = 0
field_start (f ∷ fs) zero = 0
field_start (f ∷ fs) (suc j) = length f + 1 + field_start fs j

-- A text is one field, or a field, a delimiter and a shorter text.
abbrev pub First : Bytes → Type 0
First text =
    ((find_delimiter text ≡ none) × (fields text ≡ text ∷ []))
    ⊎ ((f : Bytes) × (rest : Bytes) × (text ≡ f ++ delimiter ∷ rest)
        × (find_delimiter text ≡ some (length f))
        × (fields text ≡ f ∷ fields rest))

First-cons : (c : ℕ) (text : Bytes) → (c == delimiter) ≡ false → First text → First (c ∷ text)
unfolding find_delimiter fields
First-cons c text other (inl (e, e')) = inl (rw (other, e), rw (other, e'))
First-cons c text other (inr (f, rest, same, e, e')) = inr (
  c ∷ f,
  rest,
  ap (λ (t : Bytes). c ∷ t) same,
  rw (other, e) (ap some (omega arith)),
  rw (other, e'),
)

pub First-field : (text : Bytes) → First text
unfolding find_delimiter fields
First-field [] = inl (refl, refl)
First-field (c ∷ text) = elim (Bool-cases (c == delimiter)) [
  | inl e ↦ inr ([], text, ap (λ (d : ℕ). d ∷ text) ((==_iff c delimiter).0 e), rw e, rw e)
  | inr e ↦ First-cons c text e (First-field text)
]

abbrev AllNoZero : List Bytes → Type 0
AllNoZero [] = Unit
AllNoZero (f ∷ fs) = NoZero f × AllNoZero fs

add_first-AllNoZero : (c : ℕ) (fs : List Bytes) → 0 < c → AllNoZero fs → AllNoZero (add_first c fs)
add_first-AllNoZero c [] h k = ((h, tt), tt)
add_first-AllNoZero c (f ∷ fs) h k = ((h, k.0), k.1)

fields-AllNoZero : (text : Bytes) → NoZero text → AllNoZero (fields text)
unfolding fields
fields-AllNoZero [] h = (tt, tt)
fields-AllNoZero (c ∷ text) h =
    let rest = fields-AllNoZero text h.1 in
    elim (Bool-cases (c == delimiter)) [
      | inl e ↦ rw e (tt, rest)
      | inr e ↦ rw e (add_first-AllNoZero c (fields text) h.0 rest)
    ]

length-add_first :
    (c : ℕ) (fs : List Bytes)
    → 0 < length (terminated fs)
    → length (terminated (add_first c fs)) ≡ length (terminated fs) + 1
length-add_first c [] h = absurd (omega arith)
length-add_first c (f ∷ fs) h = omega arith

-- The delimiters make room for the terminators.
pub length-terminated-fields : (text : Bytes) → length (terminated (fields text)) ≡ length text + 1
unfolding fields
length-terminated-fields [] = refl
length-terminated-fields (c ∷ text) =
    let ih = length-terminated-fields text in
    elim (Bool-cases (c == delimiter)) [
      | inl e ↦ rw e (omega (arith, ih))
      | inr e ↦ rw e (omega (arith, ih, length-add_first c (fields text) (omega (arith, ih))))
    ]

drop-field :
    (f : Bytes) (s : ℕ) (others : Bytes) → drop (length f + 1 + s) (f ++ 0 ∷ others) ≡ drop s others
drop-field [] s others = let e : 0 + 1 + s ≡ suc s = omega arith in rw e
drop-field (c ∷ f) s others =
    let e : suc (length f) + 1 + s ≡ suc (length f + 1 + s) = omega arith in
    rw e (drop-field f s others)

field_found :
    (fs : List Bytes) (rest : Bytes) (j : ℕ)
    → AllNoZero fs
    → j < length fs
    → (field_start fs j ≤ length (terminated fs ++ rest))
      × (c_string (drop (field_start fs j) (terminated fs ++ rest)) ≡ ok (get_or fs j []))
field_found [] rest j nz h = absurd (omega arith)
field_found (f ∷ fs) rest zero nz h = (
  omega arith,
  rw (append_assoc f (0 ∷ terminated fs) rest) (c_string-terminated f (terminated fs ++ rest) nz.0),
)
field_found (f ∷ fs) rest (suc j) nz h =
    let (inside, found) = field_found fs rest j nz.1 (omega arith) in
    rw (append_assoc f (0 ∷ terminated fs) rest) (
      omega (arith, inside, length-append f (0 ∷ (terminated fs ++ rest))),
      rw (drop-field f (field_start fs j) (terminated fs ++ rest)) found,
    )

-- In a block that starts with the fields of a line, a field is the string at its start.
pub field_string :
    (line rest : Bytes) (j : ℕ)
    → NoZero line
    → j < length (fields line)
    → (field_start (fields line) j ≤ length (terminated (fields line) ++ rest))
      × (c_string (drop (field_start (fields line) j) (terminated (fields line) ++ rest))
          ≡ ok (get_or (fields line) j []))
field_string line rest j nz h = field_found (fields line) rest j (fields-AllNoZero line nz) h
