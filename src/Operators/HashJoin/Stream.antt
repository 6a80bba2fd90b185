-- ===== src/Operators/HashJoin/Stream.antt =====
-- `hashjoinGetTuple` as a source: a hash join's calls hand out the pairs one by one.
use squel.Operators.HashJoin.Loop.{Finds, amid-Finds, start-Finds}
use squel.Common.{
  Bool, Bytes, List, Option, Run, [], arith, drop, false, length, none, ok, refl, some, true, ℕ,
  ◌*◌, ◌+◌, ◌<◌, ◌>>=◌, ◌^◌, ◌∷◌, ◌≡◌, ◌≤◌,
}
use squel.Common.Int.{}
use squel.Parser.Syntax.{NodeType}
use squel.Planner.Plan.{FilterInfo, Filters, comparison, none_left, tuple_size}
use squel.Executor.Tuple.{
  JoinTuple, Row, Tuple, base, init_tuple_of_size, is_tuple_empty, joined, mark_tuple_as_empty,
  max_cols, row_size,
}
use squel.Executor.TupleBuffer.{TupleBuffer, init_tuple_buffer, write_tuple}
use squel.Util.Hashmap.{Hashmap, init_hashmap, values_size}
use squel.Util.Hashmap.Multimap.{}
use squel.Util.Hashmap.Operations.{}
use squel.Operators.Source.{All, Lends, LendsFrom, OnBase, Source, Yields}
use squel.Operators.Join.{join_buff_size}
use squel.Operators.Join.Buffered.{RawFits}
use squel.Operators.Join.Pairs.{DecidesPairs, join_pairs}
use squel.Operators.Join.Held.{Held-set}
use squel.Operators.Join.Stream.{NotEmpty, ShowsPair, ShowsPair-joined, mark_tuple_as_empty-empty}
use squel.Operators.HashJoin.{
  HashJoinState, Probe, collect_hashed, first_left, hand_out_hashed, hashed, hashjoin_get_tuple,
  hashjoin_source, probe_loop, take_back_hashed,
}
use squel.Operators.HashJoin.Keys.{hash_pairs-join, joins}
use squel.Operators.HashJoin.First.{blank-filled, blank_column, nothing_unread}
use squel.Operators.HashJoin.Hashed.{IsKey, ReadsRight, collect_hashed-whole}
use squel.Operators.HashJoin.Probes.{Amid, Different, Done, ReadsLeft, Unread-AtStart}

module _ (left right : Source) (info : FilterInfo) (operator_next : NodeType)
    (left_column_count : ℕ) (ht_size : ℕ) (raw : ℕ → Tuple) (fuel : ℕ) where
  abbrev filters : Filters
  filters = comparison info operator_next none_left

  abbrev State : Type 0
  State = HashJoinState left right

  abbrev Vars : Type 0
  Vars = Probe left right info operator_next left_column_count ht_size raw

  abbrev source : Source
  source = hashjoin_source left right info operator_next left_column_count ht_size raw fuel

  -- JoinInfo as the planner makes it.
  abbrev pub unprobed : left.State → right.State → State
  unprobed s t = record {
    left_state = s;
    right_state = t;
    hashmap = none;
    right_tuples = none;
    left_tuple = none;
    right_slot = 0;
    right_tuple_count = 0;
    right_tuples_collected = false;
    freed = false;
  }

  abbrev saved : State → ℕ → right.State → Vars → State
  saved st counted s c = record st {
    left_state = c.state;
    right_state = s;
    hashmap = some c.map;
    right_tuples = some c.buffer;
    left_tuple = some c.left_tpl;
    right_slot = c.slot;
    right_tuple_count = counted;
    right_tuples_collected = true;
  }

  abbrev loop : Vars → Run (Option (Tuple × Tuple) × Vars)
  loop = probe_loop left right info operator_next left_column_count ht_size raw fuel

  abbrev hand : Row → State → ℕ → right.State → Option (Tuple × Tuple) × Vars → Run (Row × State)
  hand = hand_out_hashed left right info operator_next left_column_count ht_size raw

  -- The variables of the loop after the caller's changes.
  abbrev changed : JoinTuple → Vars → Vars
  changed tpl c = record c { left_tpl = tpl.left; buffer = write_tuple c.buffer c.slot tpl.right }

  -- A later call goes on with the loop where the last one left it. Its own `rightTuple` does not
  -- point to a slot yet.
  resumed :
      (counted : ℕ) (tpl : JoinTuple) (st : State) (s : right.State) (c : Vars)
      → st.freed ≡ false
      → is_tuple_empty (base tpl.left) ≡ false
      → source.get_tuple (saved st counted s c) (joined tpl)
        ≡ loop (record (changed tpl c) { slot = 0 })
          >>= hand (joined tpl) (saved st counted s (changed tpl c)) counted s
  unfolding hashjoin_get_tuple hashed first_left take_back_hashed
  resumed counted tpl st s c live filled = rw (live, filled) refl

  -- The first call fills the table and the buffer, and enters the loop with a blank tuple.
  started :
      (counted : ℕ) (row : Row) (s : left.State) (t t' : right.State) (m : Hashmap)
      (buff : TupleBuffer)
      → collect_hashed left right info operator_next left_column_count ht_size raw fuel
          (init_hashmap ht_size)
          (init_tuple_buffer join_buff_size tuple_size)
          0
          t
        ≡ ok (m, buff, counted, t')
      → source.get_tuple (unprobed s t) row
        ≡ loop (record {
          state = s;
          left_tpl = init_tuple_of_size tuple_size;
          map = m;
          buffer = buff;
          slot = 0;
        })
          >>= hand row (unprobed s t) counted t'
  unfolding hashjoin_get_tuple hashed first_left take_back_hashed
  started counted (base tpl) s t t' m buff collecting = rw (collecting, ◌>>=◌, blank-filled) refl
  started counted (joined tpl) s t t' m buff collecting = rw (collecting, ◌>>=◌, blank-filled) refl

  module _ {A B : Type 0} (Fits : Tuple → Type 0) (ShowsL : A → Tuple → Type 0)
      (ShowsR : B → Tuple → Type 0) (key_l : A → Bytes) (key_r : B → Bytes) (p : A → B → Bool)
      (reads : ReadsLeft left right info operator_next left_column_count ht_size raw Fits ShowsL
        ShowsR key_l key_r p)
      (decides : DecidesPairs left right filters left_column_count raw Fits ShowsL ShowsR p)
      (bs : List B) (few : length bs < 2 ^ 31) where
    abbrev JoinLends : List (A × B) → Run (Row × State) → Type 0
    JoinLends = LendsFrom source NotEmpty (ShowsPair left_column_count Fits ShowsL ShowsR)

    abbrev Here : A → List (ℕ × B) → List A → Vars → Type 0
    Here =
        Amid left right info operator_next left_column_count ht_size raw Fits ShowsL ShowsR key_l
          key_r p bs

    -- Where the caller's tuple still shows the pair, the loop stands where it stood.
    changed-Amid :
        (tpl : JoinTuple) (a : A) (b : B) (todo : List (ℕ × B)) (items : List A) (c : Vars)
        {behind : List B}
        → drop c.slot bs ≡ b ∷ behind
        → ShowsPair left_column_count Fits ShowsL ShowsR (a, b) (joined tpl)
        → Here a todo items c
        → Here a todo items (record (changed tpl c) { slot = 0 })
    changed-Amid tpl a b todo items c place (shows_l, shows_r, _, fits, filled) h = record {
      ready = record {
        fits = fits;
        lists = h.ready.lists;
        held =
            unfold write_tuple in
            Held-set ShowsR bs c.buffer.tuples c.slot tpl.right h.ready.held place shows_r;
        later = h.ready.later;
        rest = h.ready.rest;
      };
      filled = filled;
      shows = shows_l;
      ahead = h.ahead;
      placed = h.placed;
    }

    abbrev Found : List (A × B) → Run (Option (Tuple × Tuple) × Vars) → Type 0
    Found =
        Finds left right info operator_next left_column_count ht_size raw Fits ShowsL ShowsR key_l
          key_r p bs fuel

    hand-LendsFrom :
        (pairs : List (A × B)) (row : Row) (st : State) (s : right.State)
        (run : Run (Option (Tuple × Tuple) × Vars))
        → NotEmpty row
        → st.freed ≡ false
        → Found pairs run
        → JoinLends pairs (run >>= hand row st (length bs) s)
    unfolding hand_out_hashed
    hand-LendsFrom [] row st s run ne live (c, e) = (
      (mark_tuple_as_empty row, record (saved st (length bs) s c) { freed = true }),
      rw (e, ◌>>=◌) refl,
      mark_tuple_as_empty-empty row,
    )
    hand-LendsFrom ((a, b) ∷ pairs) row st s run ne live
          (r, c, e, shows_r, behind, place, todo, items, left_over, here, d, w) =
        (
          (
            joined (record {
              size = row_size row;
              left_column_count = left_column_count;
              left = c.left_tpl;
              right = r;
            }),
            saved st (length bs) s c,
          ),
          rw (e, ◌>>=◌) refl,
          unfold is_tuple_empty in ne,
          unfold is_tuple_empty in ne,
          (here.shows, shows_r, refl, here.ready.fits, here.filled),
          λ row' ne' back.
              let (tpl, is_joined, shown) =
                ShowsPair-joined left_column_count Fits ShowsL ShowsR a b row' back in
              let c₁ : Vars = record (changed tpl c) { slot = 0 } in
              let more =
                amid-Finds left right info operator_next left_column_count ht_size raw Fits ShowsL
                  ShowsR key_l key_r p bs fuel reads decides few fuel a todo items c₁
                  (changed-Amid tpl a b todo items c place shown here) d w w in
              let more' : Found pairs (loop c₁) = rw left_over more in
              let ne'' : NotEmpty (joined tpl) = rw is_joined at ne' in
              let st' = saved st (length bs) s (changed tpl c) in
              let again = hand-LendsFrom pairs (joined tpl) st' s (loop c₁) ne'' live more' in
              rw (is_joined, resumed (length bs) tpl st s c live shown.4) again,
        )

    -- Over two children that yield some items into new tuples and slots, the right ones no more than
    -- there is room under a key and with keys that are not empty and fit, the left ones with keys of
    -- which no two are the same, with a table size from 1 to 2 ^ 32 and fuel for every pair: a hash
    -- join whose filter decides a test of two items, and whose columns read as the keys, the left one
    -- among the columns that a tuple has, yields the pairs with the same key that pass, in the order
    -- of a loop over the right side inside one over the left side, under a caller that gives its
    -- tuple, which points into the join's own tuples, back neither empty nor with an empty left part,
    -- still showing the pair, and with a left part that the left child can fill.
    pub hashjoin_source-Lends :
        (FitsR : Tuple → Type 0) (items : List A) (s : left.State) (t : right.State)
        → reads.0 < max_cols
        → ReadsRight left right info operator_next left_column_count ht_size raw FitsR ShowsR key_r
        → All
            (IsKey left right info operator_next left_column_count ht_size raw FitsR ShowsR key_r)
            bs
        → Different key_l items
        → length bs ≤ values_size
        → 0 < ht_size
        → ht_size ≤ 2 ^ 32
        → Yields left (OnBase Fits) (λ x. OnBase (ShowsL x)) items s
        → Yields right (OnBase FitsR) (λ x. OnBase (ShowsR x)) bs t
        → RawFits left right filters left_column_count raw FitsR ShowsR
        → Fits (init_tuple_of_size tuple_size)
        → length bs + length items * (length bs + 1) < fuel
        → Lends source NotEmpty
            (ShowsPair left_column_count Fits ShowsL ShowsR)
            (join_pairs (joins key_l key_r p) items bs)
            (unprobed s t)
    hashjoin_source-Lends FitsR items s t place rr keys d room pos_size size yl yr raw_fits fits
          enough row ne =
        let (m, buff, t', collecting, lists, u, held) =
          collect_hashed-whole left right info operator_next left_column_count ht_size raw FitsR
            ShowsR key_r raw_fits rr bs fuel t keys room (omega arith) pos_size size yr in
        let c : Vars = record {
          state = s;
          left_tpl = init_tuple_of_size tuple_size;
          map = m;
          buffer = buff;
          slot = 0;
        } in
        let over : Done left right info operator_next left_column_count ht_size raw Fits ShowsL
            ShowsR key_l key_r p bs [] items c =
          record {
            ready = record {
              fits = fits;
              lists = lists;
              held = held;
              later = Unread-AtStart key_l m items u;
              rest = yl;
            };
            spent =
                nothing_unread left right info operator_next left_column_count ht_size raw FitsR
                  ShowsR key_r bs m lists keys;
          } in
        let found =
          start-Finds left right info operator_next left_column_count ht_size raw Fits ShowsL ShowsR
            key_l key_r p bs fuel reads decides few fuel [] items c (blank_column reads.0 place)
            over d (omega arith) (omega arith) in
        let found' : Found (join_pairs (joins key_l key_r p) items bs) (loop c) =
          rw (hash_pairs-join key_l key_r p bs items) at found in
        rw (started (length bs) row s t t' m buff collecting) (
          hand-LendsFrom (join_pairs (joins key_l key_r p) items bs) row (unprobed s t) t' (loop c)
            ne refl found')
