-- ===== src/Operators/Join.antt =====
-- src/operators/join.c: the nested loop join, which keeps the right side in memory.
pub mod Held
pub mod Buffered
pub mod Pairs
pub mod Stream
use squel.Common.{
  Bool, Option, Run, defined, false, fault, get_or_else, if◌then◌else◌, leb, length, none, not,
  null_pointer, ok, out_of_fuel, some, suc, true, use_after_free, zero, ℕ, ◌+◌, ◌-◌, ◌==◌, ◌>>=◌,
  ◌>>◌,
}
use squel.Planner.Plan.{Filters, tuple_size}
use squel.Executor.Tuple.{
  Row, Tuple, base, init_tuple_of_size, is_tuple_empty, joined, mark_tuple_as_empty, row_size,
}
use squel.Executor.TupleBuffer.{
  TupleBuffer, get_tuple_by_index, get_tuple_from_buffer, init_tuple_buffer, write_tuple,
}
use squel.Operators.Source.{Source}
use squel.Operators.Filter.{Operands, evaluate_filter_ops, two}

-- `JOINBUFFSIZE`
abbrev pub join_buff_size : ℕ
join_buff_size = 100000

-- JoinInfo with the states of the children; `none` is a null pointer.
pub record JoinState (left right : Source) : Type 0 where
  pub left_state : left.State
  pub right_state : right.State
  pub right_tuples : Option TupleBuffer
  pub left_tuple : Option Tuple
  pub right_tuple_idx : ℕ
  pub right_tuple_count : ℕ
  pub right_tuples_collected : Bool
  -- Whether the buffer and the left tuple were freed, at the end of the join.
  pub freed : Bool

-- The slots of a buffer of which one was changed through a pointer to it; a buffer that is not made
-- has none.
abbrev pub changed_slot : Option TupleBuffer → ℕ → Tuple → Option TupleBuffer
changed_slot none i tpl = none
changed_slot (some buff) i tpl = some (write_tuple buff i tpl)

-- A child of a join is a scan, which fills a tuple of a table. An empty tuple is not looked into.
unfoldable pub as_base : Tuple → Row → Run Tuple
as_base old (base tpl) = ok tpl
as_base old (joined tpl) =
    if tpl.size == 0 then ok (record old { size = 0 }) else fault null_pointer

-- The operands of a join's filters are always two tuples.
abbrev pub as_two : Operands → Run (Tuple × Tuple)
as_two (two (base l) (base r)) = ok (l, r)
as_two _ = fault null_pointer

module _ (left right : Source) (filters : Filters) (left_column_count : ℕ) (raw : ℕ → Tuple) where
  -- `left->getTuple(left, leftTuple)`
  unfoldable pub next_left : left.State → Tuple → Run (Tuple × left.State)
  next_left s tpl = do
    (row, s') ← left.get_tuple s (base tpl)
    tpl' ← as_base tpl row
    ok (tpl', s')

  -- The loop that is entered on the first call: one slot for each tuple of the right side, and one
  -- for the empty tuple at its end, which is not counted. `raw` is what slots hold before.
  unfoldable pub collect : ℕ → TupleBuffer → ℕ → right.State → Run (TupleBuffer × ℕ × right.State)
  collect zero buff counted s = out_of_fuel
  collect (suc fuel) buff counted s = do
    let idx = length buff.tuples
    (slot, buff₁) ← get_tuple_from_buffer (raw idx) buff
    (row, s') ← right.get_tuple s (base slot)
    tpl ← as_base slot row
    let buff₂ = write_tuple buff₁ idx tpl
    elim (is_tuple_empty row) [
      | true ↦ ok (buff₂, counted, s')
      | false ↦ collect fuel buff₂ (counted + 1) s'
    ]

  -- The variables of the loop that looks for the next pair.
  pub record Cursor : Type 0 where
    pub state : left.State
    pub left_tpl : Tuple
    pub buffer : TupleBuffer
    pub idx : ℕ

  -- The `do`-`while` loop. It ends in a pair, or in `none` where the left side is exhausted.
  unfoldable pub scan_pairs : ℕ → ℕ → Cursor → Run (Option (Tuple × Tuple) × Cursor)
  scan_pairs zero counted c = out_of_fuel
  scan_pairs (suc fuel) counted c = elim (leb counted c.idx) [
    | true ↦ do
      (tpl, s) ← next_left c.state c.left_tpl
      let c' = record c { state = s; left_tpl = tpl; idx = 0 }
      elim (is_tuple_empty (base tpl)) [ true ↦ ok (none, c') | false ↦ scan_pairs fuel counted c' ]
    | false ↦ do
      r ← get_tuple_by_index c.buffer c.idx
      (passes, operands) ← evaluate_filter_ops filters (two (base c.left_tpl) (base r))
      (l', r') ← as_two operands
      let c' = record c { left_tpl = l'; buffer = write_tuple c.buffer c.idx r'; idx = c.idx + 1 }
      elim passes [
        | true ↦ ok (some (l', r'), c')
        | false ↦ elim (is_tuple_empty (base l')) [
          | true ↦ ok (none, c')
          | false ↦ scan_pairs fuel counted c'
        ]
      ]
  ]

  -- The buffer is made and filled on the first call.
  unfoldable pub collected : ℕ → JoinState left right → Run (TupleBuffer × ℕ × right.State)
  collected fuel st =
      let buff = get_or_else st.right_tuples (init_tuple_buffer join_buff_size tuple_size) in
      elim st.right_tuples_collected [
        | true ↦ ok (buff, st.right_tuple_count, st.right_state)
        | false ↦ collect fuel buff st.right_tuple_count st.right_state
      ]

  -- A left tuple that is null is made and filled; one that is empty is filled once more.
  unfoldable pub ready_left : Option Tuple → left.State → Run (Tuple × left.State)
  ready_left left_tuple s = do
    (tpl, s₁) ← elim left_tuple [
      | some tpl ↦ ok (tpl, s)
      | none ↦ next_left s (init_tuple_of_size tuple_size)
    ]
    if is_tuple_empty (base tpl) then next_left s₁ tpl else ok (tpl, s₁)

  -- `left` and `right` of the caller's tuple point to the left tuple and to the slot read last, once
  -- a pair was handed out: what the caller has changed there, by a cast, is changed in the join.
  unfoldable pub take_back : Row → JoinState left right → JoinState left right
  take_back (base tpl) st = st
  take_back (joined tpl) st = elim st.left_tuple [
    | none ↦ st
    | some own ↦ record st {
      left_tuple = some tpl.left;
      right_tuples = changed_slot st.right_tuples (st.right_tuple_idx - 1) tpl.right;
    }
  ]

  -- The fields of JoinInfo that a call has changed.
  abbrev pub save : JoinState left right → ℕ → right.State → Cursor → JoinState left right
  save st counted s c = record st {
    left_state = c.state;
    right_state = s;
    right_tuples = some c.buffer;
    left_tuple = some c.left_tpl;
    right_tuple_idx = c.idx;
    right_tuple_count = counted;
    right_tuples_collected = true;
  }

  -- The end of `joinGetTuple`: a pair is handed out through the caller's tuple, or the memory is
  -- freed and the caller's tuple marked as empty. The type and the column count of the caller's
  -- tuple are set on the first call; the caller passes the same tuple again.
  unfoldable pub hand_out :
      Row
      → JoinState left right
      → ℕ
      → right.State
      → Option (Tuple × Tuple) × Cursor
      → Run (Row × JoinState left right)
  unfolding mark_tuple_as_empty
  hand_out row st counted s (found, c) = do
    let st' = save st counted s c
    elim found [
      | none ↦ ok (mark_tuple_as_empty row, record st' { freed = true })
      | some (l, r) ↦ ok (
        joined (record {
          size = row_size row;
          left_column_count = left_column_count;
          left = l;
          right = r;
        }),
        st',
      )
    ]

  -- `joinGetTuple`
  unfoldable pub join_get_tuple : ℕ → JoinState left right → Row → Run (Row × JoinState left right)
  join_get_tuple fuel st₀ row = do
    defined (not st₀.freed) use_after_free
    let st = take_back row st₀
    (buff, counted, s) ← collected fuel st
    (tpl, t) ← ready_left st.left_tuple st.left_state
    found ←
        scan_pairs fuel counted
          (record { state = t; left_tpl = tpl; buffer = buff; idx = st.right_tuple_idx })
    hand_out row st counted s found
