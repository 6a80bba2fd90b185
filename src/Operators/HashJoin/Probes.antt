-- ===== src/Operators/HashJoin/Probes.antt =====
-- The loop of hashjoin.c hands out the pairs under the key of one left item after the other.
use native.Mathlib.Nat.{mod-eq_of_lt}
use squel.Common.{
  Bool, Bytes, List, Option, Run, [], ap, arith, bytes_eq, bytes_eq_refl, drop, false, get_or,
  if◌then◌else◌, length, le→not_ltb, lt→ltb, lt→not_leb, none, ok, refl, some, true, ℕ, ◌%◌, ◌+◌,
  ◌<◌, ◌>>=◌, ◌^◌, ◌∙◌, ◌∷◌, ◌≡◌,
}
use squel.Common.Int.{}
use squel.Parser.Syntax.{NodeType}
use squel.Planner.Plan.{FilterInfo, Filters, comparison, none_left}
use squel.Executor.Tuple.{Row, Tuple, base, column_string, is_tuple_empty}
use squel.Executor.TupleBuffer.{get_tuple_by_index, write_tuple}
use squel.Util.Hashmap.{Hashmap}
use squel.Util.Hashmap.Multimap.{position}
use squel.Util.Hashmap.Operations.{
  Read, Restarted, get_value_from_hashmap-Read, is_in_hashmap-unread, reset_cursor-Restarted,
  unread,
}
use squel.Operators.Source.{All, OnBase, Source}
use squel.Operators.Filter.{as_index}
use squel.Operators.Join.{next_left}
use squel.Operators.Join.Held.{Held, Held-at, Held-set, drop_next, drop_none}
use squel.Operators.Join.Pairs.{DecidesPairs, LeftGives}
use squel.Operators.HashJoin.{Probe, is_negative_int, probe_once}
use squel.Operators.HashJoin.Keys.{Placed, found, length-places, places-at}
use squel.Operators.HashJoin.Hashed.{Lists, Unread}

-- A place in the buffer as an `int`.
int_place : (x : ℕ) → x < 2 ^ 31 → (is_negative_int x ≡ false) × (x % 2 ^ 32 ≡ x)
int_place x h =
    let same : x % 2 ^ 32 ≡ x = mod-eq_of_lt (omega arith) in
    (rw same (lt→not_leb (2 ^ 31) x h), same)

module _ {A : Type 0} (key_l : A → Bytes) where
  -- No two items have the same key.
  abbrev pub Different : List A → Type 0
  Different [] = Unit
  Different (a ∷ items) =
      All (λ (a' : A). bytes_eq (key_l a) (key_l a') ≡ false) items × Different items

  abbrev pub AtStart : Hashmap → List A → Type 0
  AtStart m = All (λ (a : A). position m (key_l a) ≡ 0)

  pub Unread-AtStart : (m : Hashmap) (items : List A) → Unread m → AtStart m items
  Unread-AtStart m [] u = tt
  Unread-AtStart m (a ∷ items) u = (u.placed (key_l a), Unread-AtStart m items u)

  -- A read under one key leaves the positions of others.
  Read-AtStart :
      (m m' : Hashmap) (key : Bytes) (v : ℕ) (items : List A)
      → Read key m (v, m')
      → All (λ (a : A). bytes_eq key (key_l a) ≡ false) items
      → AtStart m items
      → AtStart m' items
  Read-AtStart m m' key v [] r d s = tt
  Read-AtStart m m' key v (a ∷ items) r d s =
      (r.placed (key_l a) ∙ rw d.0 s.0, Read-AtStart m m' key v items r d.1 s.1)

  -- A reset moves positions to the start only.
  pub reset-AtStart :
      (m m' : Hashmap) (key : Bytes) (items : List A)
      → Restarted key m m'
      → AtStart m items
      → AtStart m' items
  reset-AtStart m m' key [] r s = tt
  reset-AtStart m m' key (a ∷ items) r s =
      (r.placed (key_l a) ∙ ground (arith, s.0), reset-AtStart m m' key items r s.1)

module _ (left right : Source) (info : FilterInfo) (operator_next : NodeType)
    (left_column_count : ℕ) (ht_size : ℕ) (raw : ℕ → Tuple) {A B : Type 0} (Fits : Tuple → Type 0)
    (ShowsL : A → Tuple → Type 0) (ShowsR : B → Tuple → Type 0) (key_l : A → Bytes)
    (key_r : B → Bytes) (p : A → B → Bool) where
  -- The column of the comparison reads as the key.
  abbrev pub ReadsLeft : Type 0
  ReadsLeft =
      (i : ℕ) × (as_index info.left_index ≡ ok i)
      × ((a : A) (t : Tuple) → ShowsL a t → column_string t i ≡ ok (key_l a))

  abbrev filters : Filters
  filters = comparison info operator_next none_left

  abbrev Loop : Type 0
  Loop = Probe left right info operator_next left_column_count ht_size raw

  abbrev probe : Loop → Run (Option (Tuple × Tuple) × Loop)
  probe = probe_once left right info operator_next left_column_count ht_size raw

  abbrev LeftGives' : List A → Run (Row × left.State) → Type 0
  LeftGives' = LeftGives left right filters left_column_count raw Fits ShowsL ShowsR p

  module _ (bs : List B) where
    -- What holds between two rounds, with `items` of the left side still to come.
    pub record Ready (items : List A) (c : Loop) : Type 0 where
      pub fits : Fits c.left_tpl
      pub lists : Lists key_r bs c.map
      pub held : Held ShowsR bs c.buffer.tuples
      pub later : AtStart key_l c.map items
      pub rest : (row : Row) → OnBase Fits row → LeftGives' items (left.get_tuple c.state row)

    -- Nothing is left to read under the key of the left tuple.
    pub record Done (key : Bytes) (items : List A) (c : Loop) : Type 0 where
      pub ready : Ready items c
      pub spent : unread c.map key ≡ false

    -- The loop stands at the left item `a`, with `todo` of the right items with its key.
    pub record Amid (a : A) (todo : List (ℕ × B)) (items : List A) (c : Loop) : Type 0 where
      pub ready : Ready items c
      pub filled : is_tuple_empty (base c.left_tpl) ≡ false
      pub shows : ShowsL a c.left_tpl
      pub ahead : drop (position c.map (key_l a)) (found key_r (key_l a) 0 bs) ≡ todo
      pub placed : All (Placed key_r bs) todo

    pub Amid-Done : (a : A) (items : List A) (c : Loop) → Amid a [] items c → Done (key_l a) items c
    unfolding unread
    Amid-Done a items c h =
        let few = drop_none (found key_r (key_l a) 0 bs) (position c.map (key_l a)) h.ahead in
        record {
          ready = h.ready;
          spent =
              rw (h.ready.lists.listed (key_l a), length-places (found key_r (key_l a) 0 bs))
                (le→not_ltb (position c.map (key_l a)) (length (found key_r (key_l a) 0 bs)) few);
        }

    -- A round with nothing to read resets the key and fills the left tuple.
    pub next_round :
        (i : ℕ) (key : Bytes) (items : List A) (c : Loop)
        → as_index info.left_index ≡ ok i
        → column_string c.left_tpl i ≡ ok key
        → Done key items c
        → (m : Hashmap) × Restarted key c.map m
          × (probe c ≡ (do
            (tpl, s) ← next_left left right filters left_column_count raw c.state c.left_tpl
            ok (none, record c { state = s; left_tpl = tpl; map = m })))
    unfolding probe_once
    next_round i key items c place reads h =
        let (m, run, restarted) = reset_cursor-Restarted c.map key h.ready.lists.valid in
        (
          m,
          restarted,
          rw (place, ◌>>=◌, reads, is_in_hashmap-unread c.map key h.ready.lists.valid, h.spent, run)
              refl,
        )

    -- A round that reads a place evaluates the filter on the left tuple and the one at that place.
    pub read_round :
        ReadsLeft
        → DecidesPairs left right filters left_column_count raw Fits ShowsL ShowsR p
        → (a : A) (x : ℕ) (b : B) (todo : List (ℕ × B)) (items : List A) (c : Loop)
        → Amid a ((x, b) ∷ todo) items c
        → Different key_l (a ∷ items)
        → length bs < 2 ^ 31
        → (r : Tuple) × (c' : Loop) × (probe c
            ≡ ok (if p a b then some (c'.left_tpl, r) else none, c'))
          × ShowsR b r
          × (c'.slot ≡ x)
          × Amid a todo items c'
    unfolding probe_once unread
    read_round (i, place, reads) decides a x b todo items c h different few =
        let key = key_l a in
        let all = found key_r key 0 bs in
        let (behind, e) = h.placed.0 in
        let (e', x_lt) = drop_next bs x e in
        let (further, q_lt) = drop_next all (position c.map key) h.ahead in
        let unread' : unread c.map key ≡ true =
          rw (h.ready.lists.listed key, length-places all)
            (lt→ltb (position c.map key) (length all) q_lt) in
        let ((v, m), run, read) = get_value_from_hashmap-Read c.map key h.ready.lists.valid in
        let value : v ≡ x =
          read.value unread'
          ∙ ap (λ (t : List ℕ). get_or t (position c.map key) 0) (h.ready.lists.listed key)
          ∙ places-at all (position c.map key) x b todo h.ahead in
        let (positive, whole) : (is_negative_int v ≡ false) × (v % 2 ^ 32 ≡ x) =
          rw value (int_place x (omega arith)) in
        let (t, there, shows) = Held-at ShowsR bs c.buffer.tuples x h.ready.held e in
        let (l, r, decided, filled, fits, shows_l, shows_r) =
          decides a b c.left_tpl t h.filled h.ready.fits h.shows shows in
        let c' : Loop = record c {
          left_tpl = l;
          map = m;
          buffer = write_tuple c.buffer x r;
          slot = x;
        } in
        let at_x : get_tuple_by_index c.buffer (v % 2 ^ 32) ≡ ok t =
          ap (λ (y : ℕ). get_tuple_by_index c.buffer y) whole
          ∙ unfold get_tuple_by_index in there in
        let moved : position m key ≡ position c.map key + 1 =
          read.placed key ∙ rw (bytes_eq_refl key, unread') (omega arith) in
        (
          r,
          c',
          rw
              (
                place,
                ◌>>=◌,
                reads a c.left_tpl h.shows,
                is_in_hashmap-unread c.map key h.ready.lists.valid,
                unread',
                run,
                positive,
                at_x,
                decided,
              )
              (ap
                (λ (y : ℕ). ok (
                  if p a b then some (l, r) else none,
                  record c { left_tpl = l; map = m; buffer = write_tuple c.buffer y r; slot = y },
                ))
                whole),
          shows_r,
          refl,
          record {
            ready = record {
              fits = fits;
              lists = record {
                valid = read.next.valid;
                listed = λ k. read.listed k ∙ h.ready.lists.listed k;
              };
              held =
                  unfold write_tuple in
                  Held-set ShowsR bs c.buffer.tuples x r h.ready.held e shows_r;
              later = Read-AtStart key_l c.map m key v items read different.0 h.ready.later;
              rest = h.ready.rest;
            };
            filled = filled;
            shows = shows_l;
            ahead = rw moved further;
            placed = h.placed.1;
          },
        )
