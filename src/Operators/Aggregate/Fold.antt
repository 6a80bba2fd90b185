-- ===== src/Operators/Aggregate/Fold.antt =====
-- The loop of aggregate.c folds the column of all the child's tuples.
use squel.Common.{
  >>=-eq-ok, Bool-cases, List, Run, [], ap, arith, false, if◌then◌else◌, inl, inr, length, map, ok,
  refl, suc, zero, ℕ, ◌+◌, ◌>>=◌, ◌∙◌, ◌∷◌, ◌≡◌, ◌≤◌,
}
use squel.Common.Int.{ℤ}
use squel.Planner.Plan.{AggregationType, count}
use squel.Executor.Tuple.{Row, get_tuple_long_col_by_index, is_tuple_empty}
use squel.Operators.Source.{Gives, Source}
use squel.Operators.Aggregate.{agg_fun, agg_loop, is_count, observe}

-- What one value makes of the result; a count looks at none of them.
abbrev pub step : AggregationType → ℤ → ℤ → Run ℤ
step aggtype result v = if is_count aggtype then ok result else agg_fun aggtype result v

-- The values in turn.
unfoldable pub fold : AggregationType → ℤ → List ℤ → Run ℤ
fold aggtype result [] = ok result
fold aggtype result (v ∷ vs) = do result' ← step aggtype result v; fold aggtype result' vs

ended :
    {S : Type 0} (s : S) {r r' : ℤ} {m m' : ℕ}
    → ok r ≡ ok r'
    → m ≡ m'
    → ◌≡◌ {A = Run (ℤ × ℕ × S)} (ok (r, m, s)) (ok (r', m', s))
ended s e f = cc

module _ (child : Source) {A : Type 0} (Fits : Row → Type 0) (Shows : A → Row → Type 0)
    (aggtype : AggregationType) (col : ℕ) (value : A → ℤ) where
  -- The column holds the value of the item that the tuple shows.
  abbrev pub Reads : Type 0
  Reads =
      (a : A) (row : Row)
      → is_tuple_empty row ≡ false
      → Fits row
      → Shows a row
      → (row' : Row) × (get_tuple_long_col_by_index row col ≡ ok (value a, row')) × Fits row'

  -- A round makes of the result what the step makes of it.
  abbrev pub Observes : Type 0
  Observes =
      (a : A) (row : Row) (result result' : ℤ)
      → is_tuple_empty row ≡ false
      → Fits row
      → Shows a row
      → step aggtype result (value a) ≡ ok result'
      → (row' : Row) × (observe child aggtype col result row ≡ ok (result', row')) × Fits row'

  pub Reads-Observes : Reads → Observes
  unfolding observe
  Reads-Observes reads a row result result' more fits shows e =
      let (row', run, fits') = reads a row more fits shows in
      elim (Bool-cases (is_count aggtype)) [
        | inl c ↦ (row, rw c (ground arith), fits)
        | inr c ↦ (row', rw (c, run) (rw (rw c at e)), fits')
      ]

  -- If the fold ends in a number, so does the loop, and it has counted the items.
  pub agg_loop-fold :
      Observes
      → (items : List A) (n : ℕ) (s : child.State) (row : Row) (result : ℤ) (seen : ℕ) {r : ℤ}
      → length items ≤ n
      → Gives child Fits Shows items (child.get_tuple s row)
      → fold aggtype result (map value items) ≡ ok r
      → (s' : child.State) × (agg_loop child aggtype col (suc n) result seen s row
          ≡ ok (r, seen + length items, s'))
  unfolding agg_loop fold
  agg_loop-fold observes [] n s row result seen h g e =
      let (r, run, done) = g in (r.1, rw (run, ◌>>=◌, done) (ended r.1 e (omega arith)))
  agg_loop-fold observes (a ∷ items) zero s row result seen h g e = elim h [ ]
  agg_loop-fold observes (a ∷ items) (suc n) s row result seen h g e =
      let (r, run, more, fits, shows, rest) = g in
      let (result', one, others) =
        >>=-eq-ok (step aggtype result (value a)) (λ x. fold aggtype x (map value items)) e in
      let (row', observed, fits') = observes a r.0 result result' more fits shows one in
      let (s', loop) =
        agg_loop-fold observes items n r.1 row' result' (seen + 1) (omega arith) (rest row' fits')
          others in
      (s', rw (run, ◌>>=◌, more, observed) (loop ∙ ended s' refl (omega arith)))

-- A count does not look at its column, whatever it holds.
pub count-Observes :
    (child : Source) {A : Type 0} (Fits : Row → Type 0) (Shows : A → Row → Type 0) (col : ℕ)
    (value : A → ℤ)
    → Observes child Fits Shows count col value
unfolding observe
count-Observes child Fits Shows col value a row result result' more fits shows e =
    (row, ap (λ k. k >>= (λ (r : ℤ). ok (r, row))) e, fits)
