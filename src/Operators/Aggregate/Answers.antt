-- ===== src/Operators/Aggregate/Answers.antt =====
-- What each aggregation of aggregate.c answers, over the items that its child yields.
use native.Mathlib.Nat.{le_trans, suc-le-suc_iff, div-le_self, div-lt_iff_lt-mul}
use squel.Common.{
  List, [], ap, arith, false, inl, inr, length, lt→ltb, map, ok, refl, suc, to_signed, to_unsigned,
  true, ℕ, ◌-◌, ◌/◌, ◌<◌, ◌^◌, ◌∙◌, ◌∷◌, ◌≡◌, ◌≤◌,
}
use squel.Common.Int.{int_laws, negsuc, pos, ℤ, ◌+ℤ◌}
use squel.Planner.Plan.{AggregationType, avg, count, max, min, sum, tuple_size}
use squel.Executor.Tuple.{Row, Tuple, base, init_tuple_of_size, is_long}
use squel.Operators.Source.{Source, Yields}
use squel.Operators.Aggregate.{AggState, finish, long_max}
use squel.Operators.Aggregate.Fold.{Observes, Reads, Reads-Observes, count-Observes, fold}
use squel.Operators.Aggregate.Values.{
  Every, IsMax, IsMin, Some, SumsFit, fold-avg, fold-count, fold-max, fold-min, fold-sum, sum_of,
}
use squel.Operators.Aggregate.Result.{Answers, HasRoom, aggregate-Answers}

length-map {ℓ κ} :
    {A : Type ℓ} {B : Type κ} (f : A → B) (xs : List A) → length (map f xs) ≡ length xs
length-map f [] = refl
length-map f (x ∷ xs) = ap suc (length-map f xs)

is_long-sum :
    (result : ℤ) (vs : List ℤ)
    → is_long result ≡ true
    → SumsFit result vs
    → is_long (sum_of vs +ℤ result) ≡ true
is_long-sum result [] h fits = let same : pos 0 +ℤ result ≡ result = omega int_laws in rw same h
is_long-sum result (v ∷ vs) h fits =
    let moved : v +ℤ sum_of vs +ℤ result ≡ sum_of vs +ℤ (v +ℤ result) = omega int_laws in
    rw moved (is_long-sum (v +ℤ result) vs fits.0 fits.1)

is_long-Some :
    (r : ℤ) (vs : List ℤ)
    → Every (λ v. is_long v ≡ true) vs
    → Some (λ v. v ≡ r) vs
    → is_long r ≡ true
is_long-Some r [] longs h = absurd h
is_long-Some r (v ∷ vs) longs (inl e) = rw (← e) longs.0
is_long-Some r (v ∷ vs) longs (inr h) = is_long-Some r vs longs.1 h

to_signed_small : (n : ℕ) → n < 2 ^ 63 → to_signed n ≡ pos n
to_signed_small n h = ground arith

div-small : (t n : ℕ) → t < 2 ^ 63 → t / n < 2 ^ 63
div-small t n h = le_trans (suc-le-suc_iff.1 (div-le_self t n)) h

div_half : (t n : ℕ) → 2 ≤ n → t < 2 ^ 64 → t / n < 2 ^ 63
div_half t n h h' = (div-lt_iff_lt-mul (omega arith)).1 (grind arith)

finish_avg :
    (r : ℤ) (n : ℕ)
    → 0 < n
    → to_unsigned r / n < 2 ^ 63
    → finish avg r n ≡ ok (pos (to_unsigned r / n))
unfolding finish
finish_avg r n h small = rw (lt→ltb 0 n h) (ap ok (to_signed_small (to_unsigned r / n) small))

-- The operator's state before its first call.
abbrev pub fresh : (child : Source) → child.State → AggState child
fresh child s = record { aggregation_done = false; child_state = s }

module _ (child : Source) {A : Type 0} (Fits : Row → Type 0) (Shows : A → Row → Type 0) (col : ℕ)
    (items : List A) (fuel : ℕ) (s : child.State) (tpl : Tuple) where
  -- A count over a child that yields some items, fewer than 2 ^ 63 and within the fuel, hands out
  -- their number in one tuple with room for it, and then an empty tuple, whatever its column holds.
  pub count-Answer :
      length items < fuel
      → Yields child Fits Shows items s
      → Fits (base (init_tuple_of_size tuple_size))
      → HasRoom tpl
      → length items < 2 ^ 63
      → Answers child Fits Shows count col
          (λ a. pos 0)
          fuel
          (fresh child s)
          tpl
          (pos (length items))
  count-Answer enough yields fits room few =
      aggregate-Answers child Fits Shows count col (λ a. pos 0)
        (count-Observes child Fits Shows col (λ a. pos 0)) items fuel s tpl (pos 0) _ enough yields
        fits room (fold-count (pos 0) (map (λ a. pos 0) items))
        (unfold finish in ap ok (to_signed_small (length items) few)) (ground arith)

module _ (child : Source) {A : Type 0} (Fits : Row → Type 0) (Shows : A → Row → Type 0) (col : ℕ)
    (value : A → ℤ) (items : List A) (fuel : ℕ) (s : child.State) (tpl : Tuple)
    (enough : length items < fuel) (yields : Yields child Fits Shows items s)
    (fits : Fits (base (init_tuple_of_size tuple_size))) (room : HasRoom tpl) where
  abbrev Answer : AggregationType → ℤ → Type 0
  Answer aggtype v = Answers child Fits Shows aggtype col value fuel (fresh child s) tpl v

  observed :
      (aggtype : AggregationType)
      → Reads child Fits Shows aggtype col value
      → Observes child Fits Shows aggtype col value
  observed aggtype = Reads-Observes child Fits Shows aggtype col value

  abbrev vals : List ℤ
  vals = map value items

  -- A sum over a child that yields some items within the fuel, whose column reads as their values,
  -- hands out the sum in one tuple with room for it, and then an empty tuple, if every partial sum
  -- fits a `long`.
  pub sum-Answer :
      Reads child Fits Shows sum col value → SumsFit (pos 0) vals → Answer sum (sum_of vals)
  sum-Answer reads fit =
      let total : sum_of vals +ℤ pos 0 ≡ sum_of vals = omega int_laws in
      aggregate-Answers child Fits Shows sum col value (observed sum reads) items fuel s tpl
        (sum_of vals) _ enough yields fits room (fold-sum (pos 0) vals fit ∙ ap ok total)
        (unfold finish in refl) (rw total at (is_long-sum (pos 0) vals refl fit))

  -- A maximum over a child that yields some items within the fuel, whose column reads as their
  -- values, each a `long`, hands out the largest of 0 and the values in one tuple with room for it,
  -- and then an empty tuple.
  pub max-Answer :
      Reads child Fits Shows max col value
      → Every (λ v. is_long v ≡ true) vals
      → (r : ℤ) × IsMax (pos 0) vals r × Answer max r
  max-Answer reads longs =
      let (r, run, m) = fold-max (pos 0) vals in
      let long : is_long r ≡ true = elim m.attained [
        | inl e ↦ rw e
        | inr h ↦ is_long-Some r vals longs h
      ] in
      (
        r,
        m,
        aggregate-Answers child Fits Shows max col value (observed max reads) items fuel s tpl r _
            enough yields fits room run (unfold finish in refl) long,
      )

  -- A minimum over a child that yields some items within the fuel, whose column reads as their
  -- values, each a `long`, hands out the smallest of the values and the largest `long` in one tuple
  -- with room for it, and then an empty tuple.
  pub min-Answer :
      Reads child Fits Shows min col value
      → Every (λ v. is_long v ≡ true) vals
      → (r : ℤ) × IsMin long_max vals r × Answer min r
  min-Answer reads longs =
      let (r, run, m) = fold-min long_max vals in
      let long : is_long r ≡ true = elim m.attained [
        | inl e ↦ rw e
        | inr h ↦ is_long-Some r vals longs h
      ] in
      (
        r,
        m,
        aggregate-Answers child Fits Shows min col value (observed min reads) items fuel s tpl r _
            enough yields fits room run (unfold finish in refl) long,
      )

  summed : (r : ℤ) → SumsFit (pos 0) vals → sum_of vals ≡ r → fold avg (pos 0) vals ≡ ok r
  summed r fit e =
      let total : sum_of vals +ℤ pos 0 ≡ sum_of vals = omega int_laws in
      fold-avg (pos 0) vals ∙ fold-sum (pos 0) vals fit ∙ ap ok (total ∙ e)

  average_bound : (r : ℤ) → SumsFit (pos 0) vals → sum_of vals ≡ r → is_long r ≡ true
  average_bound r fit e =
      let total : sum_of vals +ℤ pos 0 ≡ sum_of vals = omega int_laws in
      rw (total ∙ e) at (is_long-sum (pos 0) vals refl fit)

  -- An average over a child that yields at least one item, within the fuel, whose column reads as
  -- their values, hands out the sum divided by their number, rounded down, in one tuple with room for
  -- it, and then an empty tuple, if the sum is not negative and every partial sum fits a `long`.
  pub avg-Answer :
      (total : ℕ)
      → Reads child Fits Shows avg col value
      → SumsFit (pos 0) vals
      → sum_of vals ≡ pos total
      → 0 < length items
      → Answer avg (pos (total / length items))
  avg-Answer total reads fit e some_items =
      let bound = average_bound (pos total) fit e in
      let small = div-small total (length items) (ground (arith, bound)) in
      aggregate-Answers child Fits Shows avg col value (observed avg reads) items fuel s tpl
        (pos total) _ enough yields fits room (summed (pos total) fit e)
        (finish_avg (pos total) (length items) some_items small) (ground (arith, small))

  -- An average over a child that yields two or more items within the fuel, whose column reads as
  -- their values, divides a negative sum as the number of 64 bits that it wraps to, so that the
  -- result, in one tuple with room for it, is positive. Every partial sum has to fit a `long`.
  pub avg_of_negative :
      (total : ℕ)
      → Reads child Fits Shows avg col value
      → SumsFit (pos 0) vals
      → sum_of vals ≡ negsuc total
      → 2 ≤ length items
      → Answer avg (pos ((2 ^ 64 - 1 - total) / length items))
  avg_of_negative total reads fit e some_items =
      let small = div_half (2 ^ 64 - 1 - total) (length items) some_items (omega arith) in
      aggregate-Answers child Fits Shows avg col value (observed avg reads) items fuel s tpl
        (negsuc total) _ enough yields fits room (summed (negsuc total) fit e)
        (finish_avg (negsuc total) (length items) (omega arith) small) (ground (arith, small))
