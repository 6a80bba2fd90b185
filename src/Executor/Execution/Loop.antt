-- ===== src/Executor/Execution/Loop.antt =====
-- The loop of `executeSelect` handles each tuple once.
use squel.Common.{List, Run, [], arith, false, length, ok, suc, zero, ℕ, ◌<◌, ◌>>=◌, ◌∷◌, ◌≡◌}
use squel.Executor.Tuple.{Row, is_tuple_empty}
use squel.Operators.Source.{Source, Yields}
use squel.Executor.Execution.{tuple_loop}

-- What a handler leaves that does `step` for each item, from the first on.
abbrev pub handled {ℓ} : {A : Type ℓ} {H : Type 0} → (A → H → H) → List A → H → H
handled step [] h = h
handled step (a ∷ items) h = handled step items (step a h)

module _ (src : Source) {A H : Type 0} (Fits : Row → Type 0) (Shows : A → Row → Type 0)
    (tuple_handler : H → Row → Run (Row × H)) (step : A → H → H) where
  -- The handler does `step` for the item that a tuple shows, and leaves a tuple to be filled again.
  abbrev pub Handles : Type 0
  Handles =
      (a : A) (h : H) (row : Row)
      → is_tuple_empty row ≡ false
      → Fits row
      → Shows a row
      → (row' : Row) × (tuple_handler h row ≡ ok (row', step a h)) × Fits row'

  -- Over a source that yields some items, with fuel above their number, the loop ends, and the handler
  -- has been called for each item once, in their order.
  pub tuple_loop-handled :
      Handles
      → (items : List A) (fuel : ℕ) (s : src.State) (row : Row) (h : H) → length items < fuel
      → Fits row
      → Yields src Fits Shows items s
      → tuple_loop src tuple_handler fuel s row h ≡ ok (handled step items h)
  unfolding tuple_loop
  tuple_loop-handled handles items zero s row h enough fits y = absurd (omega arith)
  tuple_loop-handled handles [] (suc fuel) s row h enough fits y =
      let (r, run, done) = y row fits in rw (run, ◌>>=◌, done)
  tuple_loop-handled handles (a ∷ items) (suc fuel) s row h enough fits y =
      let (r, run, more, fits₁, shows, rest) = y row fits in
      let (row₂, done, fits₂) = handles a h r.0 more fits₁ shows in
      rw (run, ◌>>=◌, more, done)
        (tuple_loop-handled handles items fuel r.1 row₂ (step a h) (omega arith) fits₂ rest)
