-- ===== src/Operators/HashJoin/Keys.antt =====
-- The right items under a key, with their places.
use squel.Common.{
  Bool, Bool-cases, Bytes, List, [], ap, arith, bytes_eq, drop, get_or, if◌then◌else◌, inl, inr,
  length, map, refl, suc, zero, ℕ, ◌&&◌, ◌++◌, ◌+◌, ◌∷◌, ◌≡◌, ◌≤◌,
}
use squel.Operators.Source.{All}
use squel.Operators.Join.Held.{drop_next}
use squel.Operators.Join.Pairs.{join_pairs, row_pairs}

module _ {B : Type 0} (key_r : B → Bytes) where
  -- The items of a list that have the key, where the first item has the place `i`.
  abbrev pub found : Bytes → ℕ → List B → List (ℕ × B)
  found k i [] = []
  found k i (b ∷ bs) =
      let rest = found k (i + 1) bs in if bytes_eq (key_r b) k then (i, b) ∷ rest else rest

  pub length-found : (k : Bytes) (i : ℕ) (bs : List B) → length (found k i bs) ≤ length bs
  length-found k i [] = omega arith
  length-found k i (b ∷ bs) =
      let ih = length-found k (i + 1) bs in
      elim (Bool-cases (bytes_eq (key_r b) k)) [
        | inl e ↦ rw e (omega (arith, ih))
        | inr e ↦ rw e (omega (arith, ih))
      ]

  abbrev pub last_found : Bytes → ℕ → B → List (ℕ × B)
  last_found k i b = if bytes_eq (key_r b) k then (i, b) ∷ [] else []

  pub found-snoc :
      (k : Bytes) (i : ℕ) (bs : List B) (b : B)
      → found k i (bs ++ b ∷ []) ≡ found k i bs ++ last_found k (i + length bs) b
  found-snoc k i [] b = let e : i + 0 ≡ i = omega arith in rw e refl
  found-snoc k i (b' ∷ bs) b =
      let ih = found-snoc k (i + 1) bs b in
      let e : i + suc (length bs) ≡ i + 1 + length bs = omega arith in
      elim (Bool-cases (bytes_eq (key_r b') k)) [
        | inl same ↦ rw (same, ih, e) refl
        | inr other ↦ rw (other, ih, e) refl
      ]

  -- The place of an item leads to it.
  abbrev pub Placed : List B → ℕ × B → Type 0
  Placed bs (x, b) = (rest : List B) × (drop x bs ≡ b ∷ rest)

  found-Placed :
      (k : Bytes) (i : ℕ) (all bs : List B) → drop i all ≡ bs → All (Placed all) (found k i bs)
  found-Placed k i all [] e = tt
  found-Placed k i all (b ∷ bs) e =
      let (e', lt) = drop_next all i e in
      let ih = found-Placed k (i + 1) all bs e' in
      elim (Bool-cases (bytes_eq (key_r b) k)) [
        | inl same ↦ rw same ((bs, e), ih)
        | inr other ↦ rw other ih
      ]

  pub found-All : (k : Bytes) (bs : List B) → All (Placed bs) (found k 0 bs)
  found-All k bs = found-Placed k 0 bs bs refl

module _ {A B : Type 0} (key_l : A → Bytes) (key_r : B → Bytes) where
  -- What the items with the key give is what all items give for a test that looks at the key.
  abbrev pub joins : (A → B → Bool) → A → B → Bool
  joins p a b = bytes_eq (key_r b) (key_l a) && p a b

  row_pairs-found :
      (p : A → B → Bool) (a : A) (i : ℕ) (bs : List B)
      → row_pairs p a (map (λ (f : ℕ × B). f.1) (found key_r (key_l a) i bs))
        ≡ row_pairs (joins p) a bs
  row_pairs-found p a i [] = refl
  row_pairs-found p a i (b ∷ bs) =
      let ih = row_pairs-found p a (i + 1) bs in
      elim (Bool-cases (bytes_eq (key_r b) (key_l a))) [
        | inl same ↦ elim (Bool-cases (p a b)) [
          | inl pass ↦ rw (same, pass, ih) refl
          | inr fail ↦ rw (same, fail, ih) refl
        ]
        | inr other ↦ rw (other, ih) refl
      ]

  abbrev pub hash_pairs : (A → B → Bool) → List B → List A → List (A × B)
  hash_pairs p bs [] = []
  hash_pairs p bs (a ∷ items) =
      row_pairs p a (map (λ (f : ℕ × B). f.1) (found key_r (key_l a) 0 bs)) ++ hash_pairs p bs items

  pub hash_pairs-join :
      (p : A → B → Bool) (bs : List B) (items : List A)
      → hash_pairs p bs items ≡ join_pairs (joins p) items bs
  hash_pairs-join p bs [] = refl
  hash_pairs-join p bs (a ∷ items) = rw (row_pairs-found p a 0 bs, hash_pairs-join p bs items) refl

-- The places that a key has in the table.
abbrev pub places : {B : Type 0} → List (ℕ × B) → List ℕ
places [] = []
places (f ∷ todo) = f.0 ∷ places todo

pub length-places : {B : Type 0} (todo : List (ℕ × B)) → length (places todo) ≡ length todo
length-places [] = refl
length-places (f ∷ todo) = ap suc (length-places todo)

pub places-append :
    {B : Type 0} (todo more : List (ℕ × B)) → places (todo ++ more) ≡ places todo ++ places more
places-append [] more = refl
places-append (f ∷ todo) more = ap (λ (t : List ℕ). f.0 ∷ t) (places-append todo more)

pub places-at :
    {B : Type 0} (all : List (ℕ × B)) (q x : ℕ) (b : B) (rest : List (ℕ × B))
    → drop q all ≡ (x, b) ∷ rest
    → get_or (places all) q 0 ≡ x
places-at [] zero x b rest e = cc
places-at [] (suc q) x b rest e = cc
places-at (f ∷ all) zero x b rest e = let same : f ≡ (x, b) = cc in rw same refl
places-at (f ∷ all) (suc q) x b rest e = places-at all q x b rest e
