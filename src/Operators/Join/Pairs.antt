-- ===== src/Operators/Join/Pairs.antt =====
-- The loop of join.c hands out the pairs that pass, row by row of the left side.
use squel.Common.{
  Bool, Bool-cases, List, Option, Run, [], ap, arith, drop, false, if◌then◌else◌, inl, inr, length,
  le→leb, lt→not_leb, none, ok, refl, some, suc, zero, ℕ, ◌*◌, ◌++◌, ◌+◌, ◌-◌, ◌<◌, ◌>>=◌, ◌∙◌, ◌∷◌,
  ◌≡◌,
}
use squel.Planner.Plan.{Filters}
use squel.Executor.Tuple.{Row, Tuple, base, is_tuple_empty}
use squel.Executor.TupleBuffer.{get_tuple_by_index, write_tuple}
use squel.Operators.Source.{Gives, OnBase, Source}
use squel.Operators.Filter.{evaluate_filter_ops, two}
use squel.Operators.Join.{Cursor, next_left, scan_pairs}
use squel.Operators.Join.Held.{
  Held, Held-at, Held-set, as_base_empty, as_base_fits, drop_next, drop_none,
}

-- The join of two lists by a condition: for each left item, the right items that go with it.
module _ {A B : Type 0} (p : A → B → Bool) where
  abbrev pub row_pairs : A → List B → List (A × B)
  row_pairs a [] = []
  row_pairs a (b ∷ bs) = if p a b then (a, b) ∷ row_pairs a bs else row_pairs a bs

  abbrev pub join_pairs : List A → List B → List (A × B)
  join_pairs [] bs = []
  join_pairs (a ∷ items) bs = row_pairs a bs ++ join_pairs items bs

module _ (left right : Source) (filters : Filters) (left_column_count : ℕ) (raw : ℕ → Tuple)
    {A B : Type 0} (Fits : Tuple → Type 0) (ShowsL : A → Tuple → Type 0)
    (ShowsR : B → Tuple → Type 0) (p : A → B → Bool) where
  -- The filters give `p` of the items that two tuples show, and leave the tuples showing them.
  abbrev pub DecidesPairs : Type 0
  DecidesPairs =
      (a : A) (b : B) (l r : Tuple)
      → is_tuple_empty (base l) ≡ false
      → Fits l
      → ShowsL a l
      → ShowsR b r
      → (l' r' : Tuple) × (evaluate_filter_ops filters (two (base l) (base r))
          ≡ ok (p a b, two (base l') (base r')))
        × (is_tuple_empty (base l') ≡ false)
        × Fits l'
        × ShowsL a l'
        × ShowsR b r'

  abbrev pub LeftGives : List A → Run (Row × left.State) → Type 0
  LeftGives = Gives left (OnBase Fits) (λ a. OnBase (ShowsL a))

  abbrev Loop : Type 0
  Loop = Cursor left right filters left_column_count raw

  module _ (bs : List B) (limit : ℕ) where
    -- The loop stands at the left item `a`, with `todo` of the right items and `items` of the left
    -- ones still to come.
    pub record At (a : A) (todo : List B) (items : List A) (c : Loop) : Type 0 where
      pub fits : Fits c.left_tpl
      pub filled : is_tuple_empty (base c.left_tpl) ≡ false
      pub shows : ShowsL a c.left_tpl
      pub held : Held ShowsR bs c.buffer.tuples
      pub ahead : drop c.idx bs ≡ todo
      pub rest : (row : Row) → OnBase Fits row → LeftGives items (left.get_tuple c.state row)

    abbrev pub outstanding : A → List B → List A → List (A × B)
    outstanding a todo items = row_pairs p a todo ++ join_pairs p items bs

    -- The loop ends in the first of the outstanding pairs, read from the slot before the index, with
    -- the others still outstanding and the work left below a limit.
    abbrev pub Finds : List (A × B) → Run (Option (Tuple × Tuple) × Loop) → Type 0
    Finds [] run = (c : Loop) × (run ≡ ok (none, c))
    Finds ((a, b) ∷ pairs) run =
        (r : Tuple) × (c : Loop) × (run ≡ ok (some (c.left_tpl, r), c))
        × ShowsR b r
        × (behind : List B) × (drop (c.idx - 1) bs ≡ b ∷ behind)
        × (todo : List B) × (items : List A) × (pairs ≡ outstanding a todo items)
        × At a todo items c
        × (length todo + length items * (length bs + 1) < limit)

    pub scan_pairs-Finds :
        DecidesPairs
        → (fuel : ℕ) (a : A) (todo : List B) (items : List A) (c : Loop) → At a todo items c
        → length todo + length items * (length bs + 1) < fuel
        → length todo + length items * (length bs + 1) < limit
        → Finds
            (outstanding a todo items)
            (scan_pairs left right filters left_column_count raw fuel (length bs) c)
    unfolding scan_pairs next_left
    scan_pairs-Finds d zero a todo items c h m w = absurd (omega arith)
    scan_pairs-Finds d (suc fuel) a [] [] c h m w =
        let (r, gave, empty) = h.rest (base c.left_tpl) h.fits in
        let (t, read, empty') = as_base_empty c.left_tpl r.0 empty in
        (
          record c { state = r.1; left_tpl = t; idx = 0 },
          rw (
            le→leb (length bs) c.idx (drop_none bs c.idx h.ahead),
            scan_pairs,
            next_left,
            gave,
            ◌>>=◌,
            read,
            empty',
          ),
        )
    scan_pairs-Finds d (suc fuel) a [] (a' ∷ items) c h m w =
        let (r, gave, more, fits, shows, rest) = h.rest (base c.left_tpl) h.fits in
        let (t, is_base, read, fits') = as_base_fits Fits c.left_tpl r.0 fits in
        let more' : is_tuple_empty (base t) ≡ false = rw is_base at more in
        let shows' : ShowsL a' t = rw is_base at shows in
        rw
          (
            le→leb (length bs) c.idx (drop_none bs c.idx h.ahead),
            scan_pairs,
            next_left,
            gave,
            ◌>>=◌,
            read,
            more',
          )
          (scan_pairs-Finds d fuel a' bs items (record c { state = r.1; left_tpl = t; idx = 0 })
            (record {
              fits = fits';
              filled = more';
              shows = shows';
              held = h.held;
              ahead = refl;
              rest = rest;
            })
            (omega arith) (omega arith))
    scan_pairs-Finds d (suc fuel) a (b ∷ todo) items c h m w =
        let (r, there, shows) = Held-at ShowsR bs c.buffer.tuples c.idx h.held h.ahead in
        let (l', r', decided, filled, fits, shows_l, shows_r) =
          d a b c.left_tpl r h.filled h.fits h.shows shows in
        let read : get_tuple_by_index c.buffer c.idx ≡ ok r = unfold get_tuple_by_index in there in
        let (ahead, within) = drop_next bs c.idx h.ahead in
        let c' : Loop = record c {
          left_tpl = l';
          buffer = write_tuple c.buffer c.idx r';
          idx = c.idx + 1;
        } in
        let at' : At a todo items c' = record {
          fits = fits;
          filled = filled;
          shows = shows_l;
          held =
              unfold write_tuple in
              Held-set ShowsR bs c.buffer.tuples c.idx r' h.held h.ahead shows_r;
          ahead = ahead;
          rest = h.rest;
        } in
        elim (Bool-cases (p a b)) [
          | inl pass ↦ rw pass (
            r',
            c',
            rw (lt→not_leb (length bs) c.idx within, scan_pairs, read, ◌>>=◌, decided, pass),
            shows_r,
            todo,
            ap (λ (i : ℕ). drop i bs) (omega arith) ∙ h.ahead,
            todo,
            items,
            refl,
            at',
            omega arith,
          )
          | inr fail ↦
              rw
                (
                  fail,
                  lt→not_leb (length bs) c.idx within,
                  scan_pairs,
                  read,
                  ◌>>=◌,
                  decided,
                  fail,
                  filled,
                )
                (scan_pairs-Finds d fuel a todo items c' at' (omega arith) (omega arith))
        ]
