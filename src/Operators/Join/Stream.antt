-- ===== src/Operators/Join/Stream.antt =====
-- `joinGetTuple` as a source: a join's calls hand out the pairs one by one.
use squel.Common.{
  Bool, List, Option, Run, [], arith, drop, false, length, none, ok, refl, true, ℕ, ◌*◌, ◌+◌, ◌-◌,
  ◌<◌, ◌>>=◌, ◌∷◌, ◌≡◌,
}
use squel.Planner.Plan.{Filters, tuple_size}
use squel.Executor.Tuple.{
  JoinTuple, Row, Tuple, base, init_tuple_of_size, is_tuple_empty, joined, mark_tuple_as_empty,
  row_size,
}
use squel.Executor.TupleBuffer.{TupleBuffer, init_tuple_buffer, write_tuple}
use squel.Operators.Source.{Lends, LendsFrom, OnBase, Source, Yields}
use squel.Operators.Join.{
  Cursor, JoinState, collect, collected, hand_out, join_buff_size, join_get_tuple, next_left,
  ready_left, save, scan_pairs, take_back,
}
use squel.Operators.Join.Held.{Held-set, as_base_fits}
use squel.Operators.Join.Buffered.{RawFits, collect_all}
use squel.Operators.Join.Pairs.{At, DecidesPairs, Finds, join_pairs, scan_pairs-Finds}

pub mark_tuple_as_empty-empty : (row : Row) → is_tuple_empty (mark_tuple_as_empty row) ≡ true
unfolding mark_tuple_as_empty is_tuple_empty
mark_tuple_as_empty-empty (base tpl) = refl
mark_tuple_as_empty-empty (joined tpl) = refl

-- A row of a join shows a pair if its two tuples show the items. The left one is the join's own: it
-- fits the left child, and is not empty.
abbrev pub ShowsPair :
    {A B : Type 0}
    → ℕ
    → (Tuple → Type 0)
    → (A → Tuple → Type 0)
    → (B → Tuple → Type 0)
    → A × B
    → Row
    → Type 0
ShowsPair n Fits ShowsL ShowsR (a, b) (base tpl) = ⊥
ShowsPair n Fits ShowsL ShowsR (a, b) (joined tpl) =
    ShowsL a tpl.left
    × ShowsR b tpl.right
    × (tpl.left_column_count ≡ n)
    × Fits tpl.left
    × (is_tuple_empty (base tpl.left) ≡ false)

pub ShowsPair-joined :
    {A B : Type 0} (n : ℕ) (Fits : Tuple → Type 0) (ShowsL : A → Tuple → Type 0)
    (ShowsR : B → Tuple → Type 0) (a : A) (b : B) (row : Row)
    → ShowsPair n Fits ShowsL ShowsR (a, b) row
    → (tpl : JoinTuple) × (row ≡ joined tpl) × ShowsPair n Fits ShowsL ShowsR (a, b) (joined tpl)
ShowsPair-joined n Fits ShowsL ShowsR a b (base tpl) h = absurd h
ShowsPair-joined n Fits ShowsL ShowsR a b (joined tpl) h = (tpl, refl, h)

abbrev pub NotEmpty : Row → Type 0
NotEmpty row = is_tuple_empty row ≡ false

module _ (left right : Source) (filters : Filters) (left_column_count : ℕ) (raw : ℕ → Tuple)
    (fuel : ℕ) where
  abbrev pub join_source : Source
  join_source = record {
    State = JoinState left right;
    get_tuple = join_get_tuple left right filters left_column_count raw fuel;
  }

  -- JoinInfo as the planner makes it.
  abbrev pub unstarted : left.State → right.State → JoinState left right
  unstarted s t = record {
    left_state = s;
    right_state = t;
    right_tuples = none;
    left_tuple = none;
    right_tuple_idx = 0;
    right_tuple_count = 0;
    right_tuples_collected = false;
    freed = false;
  }

  module _ {A B : Type 0} (Fits : Tuple → Type 0) (ShowsL : A → Tuple → Type 0)
      (ShowsR : B → Tuple → Type 0) (p : A → B → Bool)
      (decides : DecidesPairs left right filters left_column_count raw Fits ShowsL ShowsR p)
      (bs : List B) where
    abbrev JoinLends : List (A × B) → Run (Row × JoinState left right) → Type 0
    JoinLends = LendsFrom join_source NotEmpty (ShowsPair left_column_count Fits ShowsL ShowsR)

    abbrev Found :
        List (A × B)
        → Run (Option (Tuple × Tuple) × Cursor left right filters left_column_count raw)
        → Type 0
    Found = Finds left right filters left_column_count raw Fits ShowsL ShowsR p bs fuel

    abbrev saved :
        JoinState left right
        → right.State
        → Cursor left right filters left_column_count raw
        → JoinState left right
    saved st s c = save left right filters left_column_count raw st (length bs) s c

    -- The variables of the loop after the caller's changes.
    abbrev changed :
        JoinTuple
        → Cursor left right filters left_column_count raw
        → Cursor left right filters left_column_count raw
    changed tpl c = record c {
      left_tpl = tpl.left;
      buffer = write_tuple c.buffer (c.idx - 1) tpl.right;
    }

    -- A later call goes on with the loop where the last one left it.
    resumed :
        (tpl : JoinTuple) (st : JoinState left right) (s : right.State)
        (c : Cursor left right filters left_column_count raw)
        → st.freed ≡ false
        → is_tuple_empty (base tpl.left) ≡ false
        → join_get_tuple left right filters left_column_count raw fuel (saved st s c) (joined tpl)
          ≡ scan_pairs left right filters left_column_count raw fuel (length bs) (changed tpl c)
            >>= hand_out left right filters left_column_count raw
                (joined tpl)
                (saved st s (changed tpl c))
                (length bs)
                s
    unfolding join_get_tuple collected ready_left take_back
    resumed tpl st s c live filled = rw (live, filled)

    -- Where the caller's tuple still shows the pair, the loop stands where it stood.
    changed-At :
        (tpl : JoinTuple) (a : A) (b : B) (todo : List B) (items : List A)
        (c : Cursor left right filters left_column_count raw) {behind : List B}
        → drop (c.idx - 1) bs ≡ b ∷ behind
        → ShowsPair left_column_count Fits ShowsL ShowsR (a, b) (joined tpl)
        → At left right filters left_column_count raw Fits ShowsL ShowsR p bs fuel a todo items c
        → At left right filters left_column_count raw Fits ShowsL ShowsR p bs fuel a todo items
            (changed tpl c)
    changed-At tpl a b todo items c place (shows_l, shows_r, _, fits, filled) h = record {
      fits = fits;
      filled = filled;
      shows = shows_l;
      held =
          unfold write_tuple in
          Held-set ShowsR bs c.buffer.tuples (c.idx - 1) tpl.right h.held place shows_r;
      ahead = h.ahead;
      rest = h.rest;
    }

    hand_out-LendsFrom :
        (pairs : List (A × B)) (row : Row) (st : JoinState left right) (s : right.State)
        (run : Run (Option (Tuple × Tuple) × Cursor left right filters left_column_count raw))
        → NotEmpty row
        → st.freed ≡ false
        → Found pairs run
        → JoinLends pairs
            (run >>= hand_out left right filters left_column_count raw row st (length bs) s)
    unfolding hand_out
    hand_out-LendsFrom [] row st s run ne live (c, e) = (
      (mark_tuple_as_empty row, record (saved st s c) { freed = true }),
      rw (e, ◌>>=◌),
      mark_tuple_as_empty-empty row,
    )
    hand_out-LendsFrom ((a, b) ∷ pairs) row st s run ne live
          (r, c, e, shows_r, behind, place, todo, items, left_over, at', w) =
        (
          (
            joined (record {
              size = row_size row;
              left_column_count = left_column_count;
              left = c.left_tpl;
              right = r;
            }),
            saved st s c,
          ),
          rw (e, ◌>>=◌),
          unfold is_tuple_empty in ne,
          unfold is_tuple_empty in ne,
          (at'.shows, shows_r, refl, at'.fits, at'.filled),
          λ row' ne' back.
              let (tpl, is_joined, shown) =
                ShowsPair-joined left_column_count Fits ShowsL ShowsR a b row' back in
              let c₁ = changed tpl c in
              let found =
                scan_pairs-Finds left right filters left_column_count raw Fits ShowsL ShowsR p bs
                  fuel decides fuel a todo items c₁
                  (changed-At tpl a b todo items c place shown at') w w in
              let found' : Found pairs
                  (scan_pairs left right filters left_column_count raw fuel (length bs) c₁) =
                rw left_over found in
              let ne'' : NotEmpty (joined tpl) = rw is_joined at ne' in
              let again =
                hand_out-LendsFrom pairs (joined tpl) (saved st s c₁) s _ ne'' live found' in
              rw (is_joined, resumed tpl st s c live shown.4) again,
        )

    -- The first call fills the buffer and the left tuple, and enters the loop.
    started :
        (row : Row) (s : left.State) (t : right.State) (buff : TupleBuffer) (t' : right.State)
        (l : Tuple) (s' : left.State)
        → collect left right filters left_column_count raw fuel
            (init_tuple_buffer join_buff_size tuple_size)
            0
            t
          ≡ ok (buff, length bs, t')
        → next_left left right filters left_column_count raw s (init_tuple_of_size tuple_size)
          ≡ ok (l, s')
        → is_tuple_empty (base l) ≡ false
        → join_get_tuple left right filters left_column_count raw fuel (unstarted s t) row
          ≡ scan_pairs left right filters left_column_count raw fuel
              (length bs)
              (record { state = s'; left_tpl = l; buffer = buff; idx = 0 })
            >>= hand_out left right filters left_column_count raw row (unstarted s t) (length bs) t'
    unfolding join_get_tuple collected ready_left take_back
    started (base tpl) s t buff t' l s' collecting reading filled =
        rw (collecting, ◌>>=◌, reading, filled)
    started (joined tpl) s t buff t' l s' collecting reading filled =
        rw (collecting, ◌>>=◌, reading, filled)

    -- Over two children that yield some items, the left one at least one, with fuel for every pair, a
    -- join whose filters decide a test of two items yields the pairs that pass, in the order of a
    -- loop over the right side inside one over the left side, under a caller that gives its tuple,
    -- which points into the join's own tuples, back neither empty nor with an empty left part, still
    -- showing the pair, and with a left part that the left child can fill.
    pub join_source-Lends :
        (FitsR : Tuple → Type 0) (a : A) (items : List A) (s : left.State) (t : right.State)
        → Yields left (OnBase Fits) (λ x. OnBase (ShowsL x)) (a ∷ items) s
        → Yields right (OnBase FitsR) (λ x. OnBase (ShowsR x)) bs t
        → RawFits left right filters left_column_count raw FitsR ShowsR
        → Fits (init_tuple_of_size tuple_size)
        → length bs + length items * (length bs + 1) < fuel
        → Lends join_source NotEmpty
            (ShowsPair left_column_count Fits ShowsL ShowsR)
            (join_pairs p (a ∷ items) bs)
            (unstarted s t)
    join_source-Lends FitsR a items s t yl yr raw_fits fits enough row ne =
        let (buff', t', collecting, filled) =
          collect_all left right filters left_column_count raw FitsR ShowsR raw_fits bs fuel t
            (omega arith) yr in
        let (r, gave, more, fits', shows, rest) = yl (base (init_tuple_of_size tuple_size)) fits in
        let (l, is_base, read, fits_l) =
          as_base_fits Fits (init_tuple_of_size tuple_size) r.0 fits' in
        let more' : is_tuple_empty (base l) ≡ false = rw is_base at more in
        let shows' : ShowsL a l = rw is_base at shows in
        let c : Cursor left right filters left_column_count raw = record {
          state = r.1;
          left_tpl = l;
          buffer = buff';
          idx = 0;
        } in
        let at' : At left right filters left_column_count raw Fits ShowsL ShowsR p bs fuel a bs
            items c =
          record {
            fits = fits_l;
            filled = more';
            shows = shows';
            held = filled.held;
            ahead = refl;
            rest = rest;
          } in
        let found =
          scan_pairs-Finds left right filters left_column_count raw Fits ShowsL ShowsR p bs fuel
            decides fuel a bs items c at' enough enough in
        rw
          (started row s t buff' t' l r.1 collecting (unfold next_left in rw (gave, ◌>>=◌, read))
            more')
          (hand_out-LendsFrom (join_pairs p (a ∷ items) bs) row (unstarted s t) t' _ ne refl found)
