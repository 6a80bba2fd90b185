-- ===== src/Operators/Aggregate/Values.antt =====
-- What the folds of aggregate.c compute.
use squel.Common.{
  Bool-cases, List, [], ap, arith, if◌then◌else◌, inl, inr, ok, refl, sym, true, ◌>>=◌, ◌∷◌, ◌≡◌,
  ◌⊎◌,
}
use squel.Common.Int.{int_laws, ltb_ℤ, pos, ℤ, ◌+ℤ◌, ◌≤ℤ◌}
use squel.Planner.Plan.{avg, count, max, min, sum}
use mathlib.Core.Path.{fun_ext}
use squel.Executor.Tuple.{is_long}
use squel.Operators.Aggregate.{agg_fun, sum_long}
use squel.Operators.Aggregate.Fold.{fold}

abbrev pub sum_of : List ℤ → ℤ
sum_of [] = pos 0
sum_of (v ∷ vs) = v +ℤ sum_of vs

-- Every partial sum, from `result` on, fits a `long`.
abbrev pub SumsFit : ℤ → List ℤ → Type 0
SumsFit result [] = Unit
SumsFit result (v ∷ vs) = (is_long (v +ℤ result) ≡ true) × SumsFit (v +ℤ result) vs

abbrev pub Every {ℓ} : (ℤ → Type ℓ) → List ℤ → Type ℓ
Every P [] = Unit
Every P (v ∷ vs) = P v × Every P vs

abbrev pub Some : (ℤ → Type 0) → List ℤ → Type 0
Some P [] = ⊥
Some P (v ∷ vs) = P v ⊎ Some P vs

pub fold-count : (result : ℤ) (vs : List ℤ) → fold count result vs ≡ ok result
unfolding fold
fold-count result [] = refl
fold-count result (v ∷ vs) = fold-count result vs

pub fold-sum :
    (result : ℤ) (vs : List ℤ) → SumsFit result vs → fold sum result vs ≡ ok (sum_of vs +ℤ result)
unfolding fold agg_fun
fold-sum result [] h = ap ok (omega int_laws)
fold-sum result (v ∷ vs) h = rw (h.0, fold-sum (v +ℤ result) vs h.1) (ap ok (omega int_laws))

pub fold-avg : (result : ℤ) (vs : List ℤ) → fold avg result vs ≡ fold sum result vs
unfolding fold agg_fun
fold-avg result [] = refl
fold-avg result (v ∷ vs) = ap (λ k. sum_long result v >>= k) (fun_ext λ r. fold-avg r vs)

-- The result of `max` is `start` or a value, and nothing is larger.
pub record IsMax (start : ℤ) (vs : List ℤ) (r : ℤ) : Type 0 where
  pub bounds_start : start ≤ℤ r
  pub bounds : Every (λ v. v ≤ℤ r) vs
  pub attained : (r ≡ start) ⊎ Some (λ v. v ≡ r) vs

IsMax-step :
    (start v r : ℤ) (vs : List ℤ)
    → IsMax (if ltb_ℤ start v then v else start) vs r
    → IsMax start (v ∷ vs) r
IsMax-step start v r vs h = elim (Bool-cases (ltb_ℤ start v)) [
  | inl e ↦
      let h' : IsMax v vs r = rw e at h in
      record {
        bounds_start = ground (arith, h'.bounds_start);
        bounds = (h'.bounds_start, h'.bounds);
        attained = elim h'.attained [
          | inl here ↦ inr (inl (sym here))
          | inr later ↦ inr (inr later)
        ];
      }
  | inr e ↦
      let h' : IsMax start vs r = rw e at h in
      record {
        bounds_start = h'.bounds_start;
        bounds = (ground (arith, h'.bounds_start), h'.bounds);
        attained = elim h'.attained [ inl here ↦ inl here | inr later ↦ inr (inr later) ];
      }
]

pub fold-max : (start : ℤ) (vs : List ℤ) → (r : ℤ) × (fold max start vs ≡ ok r) × IsMax start vs r
unfolding fold agg_fun
fold-max start [] =
    (start, refl, record { bounds_start = omega arith; bounds = tt; attained = inl refl })
fold-max start (v ∷ vs) =
    let (r, run, m) = fold-max (if ltb_ℤ start v then v else start) vs in
    (r, run, IsMax-step start v r vs m)

pub record IsMin (start : ℤ) (vs : List ℤ) (r : ℤ) : Type 0 where
  pub bounds_start : r ≤ℤ start
  pub bounds : Every (λ v. r ≤ℤ v) vs
  pub attained : (r ≡ start) ⊎ Some (λ v. v ≡ r) vs

IsMin-step :
    (start v r : ℤ) (vs : List ℤ)
    → IsMin (if ltb_ℤ v start then v else start) vs r
    → IsMin start (v ∷ vs) r
IsMin-step start v r vs h = elim (Bool-cases (ltb_ℤ v start)) [
  | inl e ↦
      let h' : IsMin v vs r = rw e at h in
      record {
        bounds_start = ground (arith, h'.bounds_start);
        bounds = (h'.bounds_start, h'.bounds);
        attained = elim h'.attained [
          | inl here ↦ inr (inl (sym here))
          | inr later ↦ inr (inr later)
        ];
      }
  | inr e ↦
      let h' : IsMin start vs r = rw e at h in
      record {
        bounds_start = h'.bounds_start;
        bounds = (ground (arith, h'.bounds_start), h'.bounds);
        attained = elim h'.attained [ inl here ↦ inl here | inr later ↦ inr (inr later) ];
      }
]

pub fold-min : (start : ℤ) (vs : List ℤ) → (r : ℤ) × (fold min start vs ≡ ok r) × IsMin start vs r
unfolding fold agg_fun
fold-min start [] =
    (start, refl, record { bounds_start = omega arith; bounds = tt; attained = inl refl })
fold-min start (v ∷ vs) =
    let (r, run, m) = fold-min (if ltb_ℤ v start then v else start) vs in
    (r, run, IsMin-step start v r vs m)
