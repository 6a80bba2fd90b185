-- ===== src/Operators/Join/Held.antt =====
-- Tuples of a buffer that show given items, in the order of the items. Further slots may follow.
use mathlib.Core.Path.{subst}
use native.Mathlib.Numerals.{add-one}
use squel.Common.{
  List, [], ap, arith, at, drop, length, ok, refl, set, suc, true, zero, ℕ, ◌++◌, ◌+◌, ◌<◌, ◌∷◌,
  ◌≡◌, ◌≤◌,
}
use squel.Operators.Join.{as_base}
use squel.Operators.Source.{OnBase}
use squel.Executor.Tuple.{Row, Tuple, base, is_tuple_empty, joined}

-- An empty tuple, whatever its type, is taken as one.
pub as_base_empty :
    (old : Tuple) (row : Row)
    → is_tuple_empty row ≡ true
    → (t : Tuple) × (as_base old row ≡ ok t) × (is_tuple_empty (base t) ≡ true)
unfolding as_base is_tuple_empty
as_base_empty old (base tpl) h = (tpl, refl, h)
as_base_empty old (joined tpl) h = (record old { size = 0 }, ground arith, refl)

pub as_base_fits :
    (P : Tuple → Type 0) (old : Tuple) (row : Row)
    → OnBase P row
    → (t : Tuple) × (row ≡ base t) × (as_base old row ≡ ok t) × P t
unfolding as_base
as_base_fits P old (base tpl) h = (tpl, refl, refl, h)
as_base_fits P old (joined tpl) h = absurd h

module _ {B : Type 0} (Shows : B → Tuple → Type 0) where
  abbrev pub Held : List B → List Tuple → Type 0
  Held [] ts = Unit
  Held (b ∷ bs) [] = ⊥
  Held (b ∷ bs) (t ∷ ts) = Shows b t × Held bs ts

  pub Held-snoc :
      (bs : List B) (ts : List Tuple) (b : B) (t : Tuple)
      → Held bs ts
      → length ts ≡ length bs
      → Shows b t
      → Held (bs ++ b ∷ []) (ts ++ t ∷ [])
  Held-snoc [] [] b t h e s = (s, tt)
  Held-snoc [] (t' ∷ ts) b t h e s = absurd (omega arith)
  Held-snoc (b' ∷ bs) [] b t h e s = absurd h
  Held-snoc (b' ∷ bs) (t' ∷ ts) b t h e s = (h.0, Held-snoc bs ts b t h.1 (omega arith) s)

  pub Held-append : (bs : List B) (ts us : List Tuple) → Held bs ts → Held bs (ts ++ us)
  Held-append [] ts us h = tt
  Held-append (b ∷ bs) [] us h = absurd h
  Held-append (b ∷ bs) (t ∷ ts) us h = (h.0, Held-append bs ts us h.1)

  -- The tuple at the place of an item shows it.
  pub Held-at :
      (bs : List B) (ts : List Tuple) (i : ℕ) {b : B} {rest : List B}
      → Held bs ts
      → drop i bs ≡ b ∷ rest
      → (t : Tuple) × (at ts i ≡ ok t) × Shows b t
  unfolding at
  Held-at [] ts zero h e = cc
  Held-at [] ts (suc i) h e = cc
  Held-at (b' ∷ bs) [] i h e = absurd h
  Held-at (b' ∷ bs) (t ∷ ts) zero h e = (t, refl, subst (λ x. Shows x t) (cc) h.0)
  Held-at (b' ∷ bs) (t ∷ ts) (suc i) h e = Held-at bs ts i h.1 e

  pub Held-set :
      (bs : List B) (ts : List Tuple) (i : ℕ) (t : Tuple) {b : B} {rest : List B}
      → Held bs ts
      → drop i bs ≡ b ∷ rest
      → Shows b t
      → Held bs (set ts i t)
  Held-set [] ts i t h e s = tt
  Held-set (b' ∷ bs) [] i t h e s = absurd h
  Held-set (b' ∷ bs) (t' ∷ ts) zero t h e s = (subst (λ x. Shows x t) (cc) s, h.1)
  Held-set (b' ∷ bs) (t' ∷ ts) (suc i) t h e s = (h.0, Held-set bs ts i t h.1 e s)

drop-suc {ℓ} :
    {A : Type ℓ} (xs : List A) (i : ℕ) {x : A} {rest : List A}
    → drop i xs ≡ x ∷ rest
    → (drop (suc i) xs ≡ rest) × (i < length xs)
drop-suc [] zero e = cc
drop-suc [] (suc i) e = cc
drop-suc (x ∷ xs) zero e = (cc, omega arith)
drop-suc (x ∷ xs) (suc i) e = let (f, lt) = drop-suc xs i e in (f, omega (arith, lt))

pub drop_next {ℓ} :
    {A : Type ℓ} (xs : List A) (i : ℕ) {x : A} {rest : List A}
    → drop i xs ≡ x ∷ rest
    → (drop (i + 1) xs ≡ rest) × (i < length xs)
drop_next xs i e = rw add-one (drop-suc xs i e)

pub drop_none {ℓ} : {A : Type ℓ} (xs : List A) (i : ℕ) → drop i xs ≡ [] → length xs ≤ i
drop_none [] i e = omega arith
drop_none (x ∷ xs) zero e = cc
drop_none (x ∷ xs) (suc i) e = omega (arith, drop_none xs i e)

pub set_last {ℓ} :
    {A : Type ℓ} (xs : List A) (x y : A) → set (xs ++ x ∷ []) (length xs) y ≡ xs ++ y ∷ []
set_last [] x y = refl
set_last (z ∷ xs) x y = ap (λ t. z ∷ t) (set_last xs x y)
