-- ===== src/Operators/Aggregate.antt =====
-- src/operators/aggregate.c: one tuple with the count, the sum, the average, the largest or the
-- smallest of a column.
pub mod Fold
pub mod Values
pub mod Result
pub mod Answers
use squel.Common.{
  Bool, Run, defined, division_by_zero, drop, encode, false, fault, if◌then◌else◌, leb, length, ltb,
  null_pointer, ok, out_of_bounds, out_of_fuel, set, signed_overflow, suc, to_signed, to_unsigned,
  true, zero, ℕ, ◌++◌, ◌+◌, ◌-◌, ◌/◌, ◌>>=◌, ◌>>◌, ◌^◌,
}
use squel.Common.Int.{ltb_ℤ, pos, ℤ, ◌+ℤ◌}
use squel.Planner.Plan.{AggregationType, avg, count, max, min, tuple_size}
use squel.Executor.Tuple.{
  Row, base, get_tuple_long_col_by_index, init_tuple_of_size, is_long, is_tuple_empty, joined,
  mark_tuple_as_empty,
}
use squel.Operators.Source.{Source}

-- `__LONG_MAX__`
abbrev pub long_max : ℤ
long_max = pos (2 ^ 63 - 1)

-- `max`, `sum` and `min` of aggregate.c; a sum that no `long` holds is undefined.
unfoldable pub max_long : ℤ → ℤ → Run ℤ
max_long result num = ok (if ltb_ℤ result num then num else result)

unfoldable pub sum_long : ℤ → ℤ → Run ℤ
unfolding ◌+ℤ◌
sum_long result num = do defined (is_long (num +ℤ result)) signed_overflow; ok (num +ℤ result)

unfoldable pub min_long : ℤ → ℤ → Run ℤ
min_long result num = ok (if ltb_ℤ num result then num else result)

-- The switch that chooses `agg_fun` and the first `result`.
unfoldable pub agg_fun : AggregationType → ℤ → ℤ → Run ℤ
unfolding max_long sum_long min_long
agg_fun max = max_long
agg_fun min = min_long
agg_fun _ = sum_long

abbrev pub start_result : AggregationType → ℤ
start_result min = long_max
start_result _ = pos 0

abbrev pub is_count : AggregationType → Bool
is_count count = true
is_count _ = false

-- What follows the loop. The average divides by a `size_t`, so the sum is converted to one.
unfoldable pub finish : AggregationType → ℤ → ℕ → Run ℤ
finish avg result observations = do
  defined (ltb 0 observations) division_by_zero
  ok (to_signed (to_unsigned result / observations))
finish count result observations = ok (to_signed observations)
finish _ result observations = ok result

-- The writes at the end of `aggregateGetTuple`. The caller passes a tuple that no join has filled.
unfoldable pub write_result : ℤ → Row → Run Row
write_result result (base tpl) = do
  defined (leb 8 (length tpl.block)) out_of_bounds
  ok (
      base (record tpl {
        block = encode 8 (to_unsigned result) ++ drop 8 tpl.block;
        long_count = 1;
        casted = set tpl.casted 0 true;
        offsets = set tpl.offsets 0 0;
        longs = set tpl.longs 0 result;
      }))
write_result result (joined tpl) = fault null_pointer

-- The operator's state: `aggregationDone`, and the child's.
pub record AggState (child : Source) : Type 0 where
  pub aggregation_done : Bool
  pub child_state : child.State

module _ (child : Source) (aggtype : AggregationType) (col_to_aggregate : ℕ) where
  -- One round for a tuple of the child.
  unfoldable pub observe : ℤ → Row → Run (ℤ × Row)
  unfolding agg_fun
  observe result row = if is_count aggtype then ok (result, row) else (do
    (col_number, row') ← get_tuple_long_col_by_index row col_to_aggregate
    result' ← agg_fun aggtype result col_number
    ok (result', row'))

  -- The loop over the child's tuples, which are written to `tmpTpl`.
  unfoldable pub agg_loop : ℕ → ℤ → ℕ → child.State → Row → Run (ℤ × ℕ × child.State)
  agg_loop zero result observations s tmp_tpl = out_of_fuel
  agg_loop (suc fuel) result observations s tmp_tpl = do
    (row, s') ← child.get_tuple s tmp_tpl
    elim (is_tuple_empty row) [
      | true ↦ ok (result, observations, s')
      | false ↦ do
        (result', row') ← observe result row
        agg_loop fuel result' (observations + 1) s' row'
    ]

  -- `aggregateGetTuple`
  unfoldable pub aggregate_get_tuple : ℕ → AggState child → Row → Run (Row × AggState child)
  aggregate_get_tuple fuel st row = elim st.aggregation_done [
    | true ↦ ok (mark_tuple_as_empty row, st)
    | false ↦ do
      (result, observations, s) ←
          agg_loop fuel (start_result aggtype) 0 st.child_state
            (base (init_tuple_of_size tuple_size))
      result' ← finish aggtype result observations
      row' ← write_result result' row
      ok (row', record { aggregation_done = true; child_state = s })
  ]
