-- ===== src/Operators/ScanTdb/Order.antt =====
-- In which order a table's records are handed out: a block of the file is read at a time, and its
-- records are handed out from the last one to the first.
use native.Mathlib.Nat.{suc-mul}
use squel.Common.{
  Bytes, List, [], ap, append-nil, append_assoc, arith, inl, inr, length, length-append, refl, suc,
  sym, zero, ℕ, ◌*◌, ◌++◌, ◌+◌, ◌-◌, ◌<◌, ◌∙◌, ◌∷◌, ◌≡◌, ◌≤◌, ◌⊎◌,
}

-- The elements of the second list behind those of the first one in reverse.
abbrev pub flip_onto {ℓ} : {A : Type ℓ} → List A → List A → List A
flip_onto [] acc = acc
flip_onto (x ∷ xs) acc = flip_onto xs (x ∷ acc)

-- `block` is the part of a block of `n` that was read, last one first, with room for `left` more.
unfoldable pub blocks_reversed {ℓ} : {A : Type ℓ} → ℕ → List A → ℕ → List A → List A
blocks_reversed n block left [] = block
blocks_reversed n block zero (x ∷ xs) = block ++ blocks_reversed n (x ∷ []) (n - 1) xs
blocks_reversed n block (suc left) (x ∷ xs) = blocks_reversed n (x ∷ block) left xs

-- The list in blocks of `n` elements, each reversed.
abbrev pub read_order {ℓ} : {A : Type ℓ} → ℕ → List A → List A
read_order n xs = blocks_reversed n [] n xs

abbrev pub flatten {ℓ} : {A : Type ℓ} → List (List A) → List A
flatten [] = []
flatten (x ∷ xs) = x ++ flatten xs

-- The bytes of a block whose records are listed last one first.
abbrev pub stacked {ℓ} : {A : Type ℓ} → List (List A) → List A
stacked [] = []
stacked (x ∷ xs) = stacked xs ++ x

module _ {ℓ} {A : Type ℓ} where
  pub stacked-flip_onto :
      (xs acc : List (List A)) → stacked (flip_onto xs acc) ≡ stacked acc ++ flatten xs
  stacked-flip_onto [] acc = sym (append-nil (stacked acc))
  stacked-flip_onto (x ∷ xs) acc =
      stacked-flip_onto xs (x ∷ acc) ∙ append_assoc (stacked acc) x (flatten xs)

  pub length-flip_onto : (xs acc : List A) → length (flip_onto xs acc) ≡ length xs + length acc
  length-flip_onto [] acc = omega arith
  length-flip_onto (x ∷ xs) acc = omega (arith, length-flip_onto xs (x ∷ acc))

  pub blocks_reversed-short :
      (n : ℕ) (acc xs : List A) (left : ℕ)
      → length xs ≤ left
      → blocks_reversed n acc left xs ≡ flip_onto xs acc
  unfolding blocks_reversed
  blocks_reversed-short n acc [] left h = refl
  blocks_reversed-short n acc (x ∷ xs) zero h = absurd (omega arith)
  blocks_reversed-short n acc (x ∷ xs) (suc left) h =
      blocks_reversed-short n (x ∷ acc) xs left (omega arith)

  next_block :
      (m : ℕ) (acc ys : List A) → blocks_reversed (suc m) acc 0 ys ≡ acc ++ read_order (suc m) ys
  unfolding blocks_reversed
  next_block m acc [] = sym (append-nil acc)
  next_block m acc (y ∷ ys) =
      ap (λ (k : ℕ). acc ++ blocks_reversed (suc m) (y ∷ []) k ys) (omega arith)

  pub blocks_reversed-full :
      (m : ℕ) (acc xs ys : List A)
      → blocks_reversed (suc m) acc (length xs) (xs ++ ys)
        ≡ flip_onto xs acc ++ read_order (suc m) ys
  unfolding blocks_reversed
  blocks_reversed-full m acc [] ys = next_block m acc ys
  blocks_reversed-full m acc (x ∷ xs) ys = blocks_reversed-full m (x ∷ acc) xs ys

  -- A list that is shorter than a number, or has that number of elements before the others.
  pub split :
      (n : ℕ) (xs : List A)
      → (length xs < n)
        ⊎ ((front : List A) × (others : List A) × (length front ≡ n) × (xs ≡ front ++ others))
  split zero xs = inr ([], xs, refl, refl)
  split (suc n) [] = inl (omega arith)
  split (suc n) (x ∷ xs) = split_cons n x xs (split n xs)
    where
      split_cons :
          (n : ℕ) (x : A) (xs : List A)
          → (length xs < n)
            ⊎ ((front : List A) × (others : List A) × (length front ≡ n) × (xs ≡ front ++ others))
          → (suc (length xs) < suc n)
            ⊎ ((front : List A) × (others : List A) × (length front ≡ suc n)
                × (x ∷ xs ≡ front ++ others))
      split_cons n x xs (inl h) = inl (omega arith)
      split_cons n x xs (inr (front, others, e, e')) =
          inr (x ∷ front, others, ap suc e, ap (λ (t : List A). x ∷ t) e')

-- Each record has `size` bytes.
abbrev pub AllSized : ℕ → List Bytes → Type 0
AllSized size [] = Unit
AllSized size (r ∷ rs) = (length r ≡ size) × AllSized size rs

pub length-flatten :
    (size : ℕ) (rs : List Bytes) → AllSized size rs → length (flatten rs) ≡ length rs * size
length-flatten size [] h = omega arith
length-flatten size (r ∷ rs) h =
    omega (
      arith,
      length-append r (flatten rs),
      length-flatten size rs h.1,
      suc-mul (length rs) size,
      h.0,
    )

pub AllSized-flip_onto :
    (size : ℕ) (rs acc : List Bytes)
    → AllSized size rs
    → AllSized size acc
    → AllSized size (flip_onto rs acc)
AllSized-flip_onto size [] acc h k = k
AllSized-flip_onto size (r ∷ rs) acc h k = AllSized-flip_onto size rs (r ∷ acc) h.1 (h.0, k)

pub length-stacked :
    (size : ℕ) (rs : List Bytes) → AllSized size rs → length (stacked rs) ≡ length rs * size
length-stacked size [] h = omega arith
length-stacked size (r ∷ rs) h =
    omega (
      arith,
      length-append (stacked rs) r,
      length-stacked size rs h.1,
      suc-mul (length rs) size,
      h.0,
    )

pub AllSized-append :
    (size : ℕ) (rs ss : List Bytes) → AllSized size (rs ++ ss) → AllSized size rs × AllSized size ss
AllSized-append size [] ss h = (tt, h)
AllSized-append size (r ∷ rs) ss h = let k = AllSized-append size rs ss h.1 in ((h.0, k.0), k.1)
