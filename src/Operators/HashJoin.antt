-- ===== src/Operators/HashJoin.antt =====
-- src/operators/hashjoin.c: the join whose right side is found through a hash table.
pub mod Keys
pub mod Hashed
pub mod Probes
pub mod Loop
pub mod First
pub mod Stream
use squel.Common.{
  Bool, Option, Run, defined, false, fault, get_or_else, if◌then◌else◌, leb, length, none, not, ok,
  out_of_bounds, out_of_fuel, some, suc, true, use_after_free, zero, ℕ, ◌%◌, ◌+◌, ◌>>=◌, ◌>>◌, ◌^◌,
}
use squel.Common.Int.{negsuc, pos, ℤ}
use squel.Parser.Syntax.{NodeType}
use squel.Planner.Plan.{FilterInfo, comparison, none_left, tuple_size}
use squel.Util.Hashmap.{
  Hashmap, get_value_from_hashmap, init_hashmap, insert_to_hashmap, is_in_hashmap, reset_cursor,
}
use squel.Executor.Tuple.{
  Row, Tuple, base, column_string, init_tuple_of_size, is_tuple_empty, joined, mark_tuple_as_empty,
  row_size,
}
use squel.Executor.TupleBuffer.{
  TupleBuffer, get_tuple_by_index, get_tuple_from_buffer, init_tuple_buffer, write_tuple,
}
use squel.Operators.Source.{Source}
use squel.Operators.Filter.{evaluate_filter_ops, two}
use squel.Operators.Join.{as_base, as_two, changed_slot, join_buff_size, next_left}

-- JoinInfo as a hash join uses it, with the states of the children; `none` is a null pointer.
pub record HashJoinState (left right : Source) : Type 0 where
  pub left_state : left.State
  pub right_state : right.State
  pub hashmap : Option Hashmap
  pub right_tuples : Option TupleBuffer
  pub left_tuple : Option Tuple
  -- The slot of the buffer that `right` of the caller's tuple points to.
  pub right_slot : ℕ
  pub right_tuple_count : ℕ
  pub right_tuples_collected : Bool
  -- Whether the table, the buffer and the left tuple were freed, at the end of the join.
  pub freed : Bool

-- An `int` of `boolExprList` as a `size_t`: one below zero is past every array.
abbrev pub as_index : ℤ → Run ℕ
as_index (pos i) = ok i
as_index (negsuc i) = fault out_of_bounds

-- `(int) v < 0`, for the result of `getValueFromHashmap`.
abbrev pub is_negative_int : ℕ → Bool
is_negative_int v = leb (2 ^ 31) (v % 2 ^ 32)

-- The planner makes a hash join for one comparison: `info`, with `operatorNext`.
module _ (left right : Source) (info : FilterInfo) (operator_next : NodeType)
    (left_column_count : ℕ) (ht_size : ℕ) (raw : ℕ → Tuple) where
  -- The loop that is entered on the first call: each tuple of the right side goes to a slot, and its
  -- place to the table, under the text of its join column.
  unfoldable pub collect_hashed :
      ℕ → Hashmap → TupleBuffer → ℕ → right.State → Run (Hashmap × TupleBuffer × ℕ × right.State)
  collect_hashed zero map buff counted s = out_of_fuel
  collect_hashed (suc fuel) map buff counted s = do
    let idx = length buff.tuples
    (slot, buff₁) ← get_tuple_from_buffer (raw idx) buff
    (row, s') ← right.get_tuple s (base slot)
    tpl ← as_base slot row
    let buff₂ = write_tuple buff₁ idx tpl
    elim (is_tuple_empty row) [
      | true ↦ ok (map, buff₂, counted, s')
      | false ↦ do
        join_col_idx ← as_index info.right_index
        join_value ← column_string tpl join_col_idx
        map' ← insert_to_hashmap map join_value counted
        collect_hashed fuel map' buff₂ (counted + 1) s'
    ]

  -- The variables of the loop that looks for the next pair.
  pub record Probe : Type 0 where
    pub state : left.State
    pub left_tpl : Tuple
    pub map : Hashmap
    pub buffer : TupleBuffer
    -- The slot that `rightTuple` points to.
    pub slot : ℕ

  -- One round of the `do`-`while` loop: a pair, or `none` where the round ends in `continue`.
  unfoldable pub probe_once : Probe → Run (Option (Tuple × Tuple) × Probe)
  probe_once c = do
    join_col_idx ← as_index info.left_index
    join_value ← column_string c.left_tpl join_col_idx
    found ← is_in_hashmap c.map join_value
    elim found [
      | false ↦ do
        map' ← reset_cursor c.map join_value
        (tpl, s) ←
            next_left left right (comparison info operator_next none_left) left_column_count raw
              c.state c.left_tpl
        ok (none, record c { state = s; left_tpl = tpl; map = map' })
      | true ↦ do
        (tuple_idx, map') ← get_value_from_hashmap c.map join_value
        elim (is_negative_int tuple_idx) [
          | true ↦ ok (none, record c { map = map' })
          | false ↦ do
            r ← get_tuple_by_index c.buffer (tuple_idx % 2 ^ 32)
            (passes, operands) ←
                evaluate_filter_ops (comparison info operator_next none_left)
                  (two (base c.left_tpl) (base r))
            (l', r') ← as_two operands
            let c' = record c {
              left_tpl = l';
              map = map';
              buffer = write_tuple c.buffer (tuple_idx % 2 ^ 32) r';
              slot = tuple_idx % 2 ^ 32;
            }
            ok (if passes then some (l', r') else none, c')
        ]
    ]

  -- The `do`-`while` loop. It ends in a pair, or in `none` where the left side is exhausted.
  unfoldable pub probe_loop : ℕ → Probe → Run (Option (Tuple × Tuple) × Probe)
  probe_loop zero c = out_of_fuel
  probe_loop (suc fuel) c = do
    (found, c') ← probe_once c
    elim found [
      | some pair ↦ ok (some pair, c')
      | none ↦ elim (is_tuple_empty (base c'.left_tpl)) [
        | true ↦ ok (none, c')
        | false ↦ probe_loop fuel c'
      ]
    ]

  -- The table and the buffer are made and filled on the first call.
  unfoldable pub hashed :
      ℕ → HashJoinState left right → Run (Hashmap × TupleBuffer × ℕ × right.State)
  hashed fuel st =
      let map = get_or_else st.hashmap (init_hashmap ht_size) in
      let buff = get_or_else st.right_tuples (init_tuple_buffer join_buff_size tuple_size) in
      elim st.right_tuples_collected [
        | true ↦ ok (map, buff, st.right_tuple_count, st.right_state)
        | false ↦ collect_hashed fuel map buff st.right_tuple_count st.right_state
      ]

  -- A left tuple that is null is made, but not filled: its size is that of its block. One that is
  -- empty is filled.
  unfoldable pub first_left : Option Tuple → left.State → Run (Tuple × left.State)
  first_left left_tuple s =
      let tpl = get_or_else left_tuple (init_tuple_of_size tuple_size) in
      if is_tuple_empty (base tpl)
      then next_left left right (comparison info operator_next none_left) left_column_count raw s
          tpl
      else ok (tpl, s)

  -- What the caller has changed through its tuple is changed in the join, as for join.c.
  unfoldable pub take_back_hashed : Row → HashJoinState left right → HashJoinState left right
  take_back_hashed (base tpl) st = st
  take_back_hashed (joined tpl) st = elim st.left_tuple [
    | none ↦ st
    | some own ↦ record st {
      left_tuple = some tpl.left;
      right_tuples = changed_slot st.right_tuples st.right_slot tpl.right;
    }
  ]

  -- The end of `hashjoinGetTuple`: a pair is handed out through the caller's tuple, or the memory is
  -- freed and the caller's tuple marked as empty.
  unfoldable pub hand_out_hashed :
      Row
      → HashJoinState left right
      → ℕ
      → right.State
      → Option (Tuple × Tuple) × Probe
      → Run (Row × HashJoinState left right)
  hand_out_hashed row st counted s (found, c) = do
    let st' = record st {
      left_state = c.state;
      right_state = s;
      hashmap = some c.map;
      right_tuples = some c.buffer;
      left_tuple = some c.left_tpl;
      right_slot = c.slot;
      right_tuple_count = counted;
      right_tuples_collected = true;
    }
    elim found [
      | none ↦ ok (mark_tuple_as_empty row, record st' { freed = true })
      | some (l, r) ↦ ok (
        joined (record {
          size = row_size row;
          left_column_count = left_column_count;
          left = l;
          right = r;
        }),
        st',
      )
    ]

  -- `hashjoinGetTuple`
  unfoldable pub hashjoin_get_tuple :
      ℕ → HashJoinState left right → Row → Run (Row × HashJoinState left right)
  hashjoin_get_tuple fuel st₀ row = do
    defined (not st₀.freed) use_after_free
    let st = take_back_hashed row st₀
    (map, buff, counted, s) ← hashed fuel st
    (tpl, t) ← first_left st.left_tuple st.left_state
    found ←
        probe_loop fuel (record { state = t; left_tpl = tpl; map = map; buffer = buff; slot = 0 })
    hand_out_hashed row st counted s found

  abbrev pub hashjoin_source : ℕ → Source
  hashjoin_source fuel = record {
    State = HashJoinState left right;
    get_tuple = hashjoin_get_tuple fuel;
  }
