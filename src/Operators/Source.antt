-- ===== src/Operators/Source.antt =====
-- The iterator interface of the operators: `op->getTuple(op, tpl)` fills the tuple that the caller
-- owns and changes the operator's own state. A tuple of size 0 says that there are no more.
use squel.Common.{List, Run, [], false, ok, true, ◌∷◌, ◌≡◌}
use squel.Executor.Tuple.{Row, Tuple, base, is_tuple_empty, joined}

pub record Source : Type 1 where
  pub State : Type 0
  pub get_tuple : State → Row → Run (Row × State)

-- A property of a tuple of a table.
abbrev pub OnBase : (Tuple → Type 0) → Row → Type 0
OnBase P (base tpl) = P tpl
OnBase P (joined tpl) = ⊥

-- What a source promises its caller: as long as the caller passes a tuple that `Fits`, the calls
-- fill it with tuples that show the given items in turn, and then with an empty one.
module _ (src : Source) {A : Type 0} (Fits : Row → Type 0) (Shows : A → Row → Type 0) where
  open src use {State, get_tuple}

  abbrev pub Gives : List A → Run (Row × State) → Type 0
  Gives [] run = (r : Row × State) × (run ≡ ok r) × (is_tuple_empty r.0 ≡ true)
  Gives (a ∷ items) run =
      (r : Row × State) × (run ≡ ok r)
      × (is_tuple_empty r.0 ≡ false)
      × Fits r.0
      × Shows a r.0
      × ((row : Row) → Fits row → Gives items (get_tuple r.1 row))

  abbrev pub Yields : List A → State → Type 0
  Yields items s = (row : Row) → Fits row → Gives items (get_tuple s row)

  -- The promise of a source that lends tuples of its own: it goes on as long as the tuple comes back
  -- still showing the item, whatever else the caller has changed in it.
  abbrev pub LendsFrom : List A → Run (Row × State) → Type 0
  LendsFrom [] run = (r : Row × State) × (run ≡ ok r) × (is_tuple_empty r.0 ≡ true)
  LendsFrom (a ∷ items) run =
      (r : Row × State) × (run ≡ ok r)
      × (is_tuple_empty r.0 ≡ false)
      × Fits r.0
      × Shows a r.0
      × ((row : Row) → Fits row → Shows a row → LendsFrom items (get_tuple r.1 row))

  abbrev pub Lends : List A → State → Type 0
  Lends items s = (row : Row) → Fits row → LendsFrom items (get_tuple s row)

-- What the items are known to satisfy, their tuples show as well.
abbrev pub All {ℓ} : {A : Type ℓ} → (A → Type 0) → List A → Type 0
All P [] = Unit
All P (a ∷ items) = P a × All P items

pub Gives-All :
    (src : Source) {A : Type 0} (Fits : Row → Type 0) (Shows : A → Row → Type 0) (P : A → Type 0)
    (items : List A) (run : Run (Row × src.State))
    → All P items
    → Gives src Fits Shows items run
    → Gives src Fits (λ a row. P a × Shows a row) items run
Gives-All src Fits Shows P [] run h g = g
Gives-All src Fits Shows P (a ∷ items) run h (r, e, more, fits, shows, rest) = (
  r,
  e,
  more,
  fits,
  (h.0, shows),
  λ row fits'. Gives-All src Fits Shows P items (src.get_tuple r.1 row) h.1 (rest row fits'),
)
