-- ===== src/Operators/Filter/Stream.antt =====
-- `filterGetTuple`: the tuples of the child that pass, in their order.
use squel.Common.{
  Bool, Bool-cases, List, Run, [], arith, false, if◌then◌else◌, inl, inr, length, ok, out_of_fuel,
  suc, true, zero, ℕ, ◌<◌, ◌>>=◌, ◌∷◌, ◌≡◌, ◌≤◌,
}
use squel.Planner.Plan.{Filters}
use squel.Executor.Tuple.{Row, is_tuple_empty}
use squel.Operators.Source.{Gives, Source, Yields}
use squel.Operators.Filter.{evaluate_filter_ops, first, same}

-- The items that pass a test.
abbrev pub select {ℓ} : {A : Type ℓ} → (A → Bool) → List A → List A
select p [] = []
select p (a ∷ items) = if p a then a ∷ select p items else select p items

module _ (child : Source) (filters : Filters) where
  -- The loop of `filterGetTuple`. Its first tests are on pointers that the planner sets.
  unfoldable pub filter_loop : ℕ → child.State → Row → Run (Row × child.State)
  unfolding first
  filter_loop zero s row = out_of_fuel
  filter_loop (suc fuel) s row = do
    (row₁, s₁) ← child.get_tuple s row
    elim (is_tuple_empty row₁) [
      | true ↦ ok (row₁, s₁)
      | false ↦ do
        (passes, operands) ← evaluate_filter_ops filters (same row₁)
        elim passes [
          | true ↦ ok (first operands, s₁)
          | false ↦ filter_loop fuel s₁ (first operands)
        ]
    ]

  -- `filterGetTuple`, with fuel for the tuples of its child.
  abbrev pub filter_source : ℕ → Source
  filter_source fuel = record { State = child.State; get_tuple = filter_loop fuel }

  module _ {A : Type 0} (Fits : Row → Type 0) (Shows : A → Row → Type 0) (p : A → Bool) where
    -- The filters give `p` of the item that a tuple shows, and leave the tuple showing it.
    abbrev pub Decides : Type 0
    Decides =
        (a : A) (row : Row)
        → is_tuple_empty row ≡ false
        → Fits row
        → Shows a row
        → (row' : Row) × (evaluate_filter_ops filters (same row) ≡ ok (p a, same row'))
          × (is_tuple_empty row' ≡ false)
          × Fits row'
          × Shows a row'

    filter_loop-Gives :
        Decides
        → (items : List A) (fuel n : ℕ) (s : child.State) (row : Row) → length items ≤ fuel
        → length items ≤ n
        → Fits row
        → Gives child Fits Shows items (child.get_tuple s row)
        → Gives (filter_source (suc fuel)) Fits Shows (select p items) (filter_loop (suc n) s row)
    unfolding filter_loop
    filter_loop-Gives d [] fuel n s row h h' fits (r, run, done) = (r, rw (run, ◌>>=◌, done), done)
    filter_loop-Gives d (a ∷ items) fuel zero s row h h' fits g = elim h' [ ]
    filter_loop-Gives d (a ∷ items) fuel (suc n) s row h h' fits g =
        let (r, run, more, fits₁, shows, rest) = g in
        let (row', decided, more', fits', shows') = d a r.0 more fits₁ shows in
        elim (Bool-cases (p a)) [
          | inl pass ↦ rw pass (
            (row', r.1),
            rw (run, ◌>>=◌, more, decided, pass),
            more',
            fits',
            shows',
            λ row fits₂.
                filter_loop-Gives d items fuel fuel r.1 row (omega arith) (omega arith) fits₂
                  (rest row fits₂),
          )
          | inr fail ↦
              rw (fail, run, ◌>>=◌, more, decided, fail)
                (filter_loop-Gives d items fuel n r.1 row' (omega arith) (omega arith) fits'
                  (rest row' fits'))
        ]

    -- Over a child that yields some items, with fuel above their number, a filter that decides a
    -- test of the item that a tuple shows yields the items that pass, in their order.
    pub filter_source-Yields :
        Decides
        → (items : List A) (fuel : ℕ) (s : child.State) → length items < fuel
        → Yields child Fits Shows items s
        → Yields (filter_source fuel) Fits Shows (select p items) s
    filter_source-Yields d items zero s h y row fits = absurd (omega arith)
    filter_source-Yields d items (suc fuel) s h y row fits =
        filter_loop-Gives d items fuel fuel s row (omega arith) (omega arith) fits (y row fits)
