-- ===== src/Operators/HashJoin/Loop.antt =====
-- The rounds of hashjoin.c, up to the next pair that passes.
use squel.Common.{
  Bool, Bool-cases, Bytes, List, Option, Run, [], ap, arith, drop, false, inl, inr, length, map,
  none, ok, refl, some, suc, zero, ℕ, ◌*◌, ◌++◌, ◌+◌, ◌<◌, ◌>>=◌, ◌^◌, ◌∙◌, ◌∷◌, ◌≡◌,
}
use squel.Common.Int.{}
use squel.Parser.Syntax.{NodeType}
use squel.Planner.Plan.{FilterInfo, Filters, comparison, none_left}
use squel.Executor.Tuple.{Tuple, base, column_string, is_tuple_empty}
use squel.Util.Hashmap.{}
use squel.Util.Hashmap.Multimap.{}
use squel.Util.Hashmap.Operations.{}
use squel.Operators.Source.{Source}
use squel.Operators.Join.{next_left}
use squel.Operators.Join.Held.{as_base_empty, as_base_fits}
use squel.Operators.Join.Pairs.{DecidesPairs, row_pairs}
use squel.Operators.HashJoin.{Probe, as_index, probe_loop}
use squel.Operators.HashJoin.Keys.{found, found-All, hash_pairs, length-found}
use squel.Operators.HashJoin.Hashed.{}
use squel.Operators.HashJoin.Probes.{
  Amid, Amid-Done, Different, Done, ReadsLeft, next_round, read_round, reset-AtStart,
}

module _ (left right : Source) (info : FilterInfo) (operator_next : NodeType)
    (left_column_count : ℕ) (ht_size : ℕ) (raw : ℕ → Tuple) {A B : Type 0} (Fits : Tuple → Type 0)
    (ShowsL : A → Tuple → Type 0) (ShowsR : B → Tuple → Type 0) (key_l : A → Bytes)
    (key_r : B → Bytes) (p : A → B → Bool) where
  abbrev filters : Filters
  filters = comparison info operator_next none_left

  abbrev Reads : Type 0
  Reads =
      ReadsLeft left right info operator_next left_column_count ht_size raw Fits ShowsL ShowsR key_l
        key_r p

  abbrev Decides : Type 0
  Decides = DecidesPairs left right filters left_column_count raw Fits ShowsL ShowsR p

  abbrev Vars : Type 0
  Vars = Probe left right info operator_next left_column_count ht_size raw

  abbrev loop : ℕ → Vars → Run (Option (Tuple × Tuple) × Vars)
  loop = probe_loop left right info operator_next left_column_count ht_size raw

  module _ (bs : List B) (limit : ℕ) where
    abbrev Here : A → List (ℕ × B) → List A → Vars → Type 0
    Here =
        Amid left right info operator_next left_column_count ht_size raw Fits ShowsL ShowsR key_l
          key_r p bs

    abbrev Over : Bytes → List A → Vars → Type 0
    Over =
        Done left right info operator_next left_column_count ht_size raw Fits ShowsL ShowsR key_l
          key_r p bs

    abbrev under : A → List (ℕ × B)
    under a = found key_r (key_l a) 0 bs

    abbrev pub outstanding : A → List (ℕ × B) → List A → List (A × B)
    outstanding a todo items =
        row_pairs p a (map (λ (f : ℕ × B). f.1) todo) ++ hash_pairs key_l key_r p bs items

    -- The loop ends in the first of some pairs, read from its slot, with the others outstanding and the
    -- work below a limit.
    abbrev pub Finds : List (A × B) → Run (Option (Tuple × Tuple) × Vars) → Type 0
    Finds [] run = (c : Vars) × (run ≡ ok (none, c))
    Finds ((a, b) ∷ pairs) run =
        (r : Tuple) × (c : Vars) × (run ≡ ok (some (c.left_tpl, r), c))
        × ShowsR b r
        × (behind : List B) × (drop c.slot bs ≡ b ∷ behind)
        × (todo : List (ℕ × B)) × (items : List A) × (pairs ≡ outstanding a todo items)
        × Here a todo items c
        × Different key_l (a ∷ items)
        × (length todo + length items * (length bs + 1) < limit)

    abbrev FindsFrom : ℕ → Type 0
    FindsFrom fuel =
        (a : A) (todo : List (ℕ × B)) (items : List A) (c : Vars)
        → Here a todo items c
        → Different key_l (a ∷ items)
        → length todo + length items * (length bs + 1) < fuel
        → length todo + length items * (length bs + 1) < limit
        → Finds (outstanding a todo items) (loop fuel c)

    -- The loop where nothing is left to read: the next left item, if there is one.
    done-Finds :
        (fuel i : ℕ) (key : Bytes) (items : List A) (c : Vars)
        → as_index info.left_index ≡ ok i
        → column_string c.left_tpl i ≡ ok key
        → Over key items c
        → Different key_l items
        → length items * (length bs + 1) < suc fuel
        → length items * (length bs + 1) < limit
        → FindsFrom fuel
        → Finds (hash_pairs key_l key_r p bs items) (loop (suc fuel) c)
    unfolding probe_loop next_left
    done-Finds fuel i key [] c place reads h d m w k =
        let (map', restarted, round) =
          next_round left right info operator_next left_column_count ht_size raw Fits ShowsL ShowsR
            key_l key_r p bs i key [] c place reads h in
        let (r, gave, empty) = h.ready.rest (base c.left_tpl) h.ready.fits in
        let (t, read, empty') = as_base_empty c.left_tpl r.0 empty in
        (
          record c { state = r.1; left_tpl = t; map = map' },
          rw (round, ◌>>=◌, gave, read, empty') refl,
        )
    done-Finds fuel i key (a ∷ items) c place reads h d m w k =
        let (map', restarted, round) =
          next_round left right info operator_next left_column_count ht_size raw Fits ShowsL ShowsR
            key_l key_r p bs i key (a ∷ items) c place reads h in
        let (r, gave, more, fits, shows, rest) = h.ready.rest (base c.left_tpl) h.ready.fits in
        let (t, is_base, read, fits') = as_base_fits Fits c.left_tpl r.0 fits in
        let more' : is_tuple_empty (base t) ≡ false = rw is_base at more in
        let shows' : ShowsL a t = rw is_base at shows in
        let c' : Vars = record c { state = r.1; left_tpl = t; map = map' } in
        let later = reset-AtStart key_l c.map map' key (a ∷ items) restarted h.ready.later in
        let few = length-found key_r (key_l a) 0 bs in
        let here : Here a (under a) items c' = record {
          ready = record {
            fits = fits';
            lists = record {
              valid = restarted.next.valid;
              listed = λ j. restarted.listed j ∙ h.ready.lists.listed j;
            };
            held = h.ready.held;
            later = later.1;
            rest = rest;
          };
          filled = more';
          shows = shows';
          ahead = rw later.0 refl;
          placed = found-All key_r (key_l a) bs;
        } in
        rw (round, ◌>>=◌, gave, read, more')
          (k a (under a) items c' here d (omega (arith, few)) (omega (arith, few)))

    pub amid-Finds : Reads → Decides → length bs < 2 ^ 31 → (fuel : ℕ) → FindsFrom fuel
    unfolding probe_loop
    amid-Finds rl decides few zero a todo items c h d m w = absurd (omega arith)
    amid-Finds (i, place, reads) decides few (suc fuel) a [] items c h d m w =
        done-Finds fuel i (key_l a) items c place (reads a c.left_tpl h.shows)
          (Amid-Done left right info operator_next left_column_count ht_size raw Fits ShowsL ShowsR
            key_l key_r p bs a items c h)
          d.1 (omega arith) (omega arith) (amid-Finds (i, place, reads) decides few fuel)
    amid-Finds rl decides few (suc fuel) a ((x, b) ∷ todo) items c h d m w =
        let (behind, e) = h.placed.0 in
        let (r, c', round, shows_r, at_x, here) =
          read_round left right info operator_next left_column_count ht_size raw Fits ShowsL ShowsR
            key_l key_r p bs rl decides a x b todo items c h d few in
        elim (Bool-cases (p a b)) [
          | inl pass ↦ rw pass (
            r,
            c',
            rw (round, ◌>>=◌, pass) refl,
            shows_r,
            behind,
            ap (λ (i : ℕ). drop i bs) at_x ∙ e,
            todo,
            items,
            refl,
            here,
            d,
            omega arith,
          )
          | inr fail ↦
              rw (fail, round, ◌>>=◌, fail, here.filled)
                (amid-Finds rl decides few fuel a todo items c' here d (omega arith) (omega arith))
        ]

    -- The first round, whose tuple has a key with nothing to read.
    pub start-Finds :
        (reads : Reads)
        → Decides
        → length bs < 2 ^ 31
        → (fuel : ℕ) (key : Bytes) (items : List A) (c : Vars)
        → column_string c.left_tpl reads.0 ≡ ok key
        → Over key items c
        → Different key_l items
        → length items * (length bs + 1) < fuel
        → length items * (length bs + 1) < limit
        → Finds (hash_pairs key_l key_r p bs items) (loop fuel c)
    start-Finds rl decides few zero key items c empty h d m w = absurd (omega arith)
    start-Finds (i, place, reads) decides few (suc fuel) key items c empty h d m w =
        done-Finds fuel i key items c place empty h d m w
          (amid-Finds (i, place, reads) decides few fuel)
