-- ===== src/Planner/Join.antt =====
-- src/planner/operators/join.c: the filters of a join, whose indices are those of the two tables.
use squel.Common.{
  Bool, List, Run, arith, false, if◌then◌else◌, ltb, ok, true, zero, ℕ, ◌&&◌, ◌+◌, ◌-◌, ◌<◌, ◌>>=◌,
  ◌^◌, ◌≡◌,
}
use squel.Common.Int.{negsuc, pos, ℤ, ◌-ℤ◌}
use squel.Parser.Tree.{Node}
use squel.Planner.Plan.{FilterInfo, Filters, comparison, none_left, wrapper}
use squel.Planner.Result.{ResultSet, column_count}
use squel.Planner.Filter.Chain.{make_where_ops}

-- `(size_t) idx > leftResult.columnCount`, where an index below zero becomes a very large number.
abbrev pub is_above : ℕ → ℤ → Bool
is_above column_count (pos i) = ltb column_count i
is_above column_count (negsuc i) = ltb column_count (2 ^ 64 - 1 - i)

-- `idx -= leftResult.columnCount`
unfoldable pub remap_index : ℕ → ℤ → ℤ
remap_index column_count idx = if is_above column_count idx then idx -ℤ pos column_count else idx

unfoldable pub remap_info : ℕ → FilterInfo → FilterInfo
remap_info column_count info = record info {
  left_index = remap_index column_count info.left_index;
  right_index = remap_index column_count info.right_index;
}

-- The loop of `makeJoinFilterOps` along `next`. The two indices of a parenthesis are 0, and the
-- operators in it are not visited.
unfoldable pub remap_filters : ℕ → Filters → Filters
remap_filters column_count none_left = none_left
remap_filters column_count (comparison info operator_next rest) =
    comparison (remap_info column_count info) operator_next (remap_filters column_count rest)
remap_filters column_count (wrapper child operator_next rest) =
    wrapper child operator_next (remap_filters column_count rest)

-- `makeJoinFilterOps`: the description of the result has the columns of both sides.
unfoldable pub make_join_filter_ops : List Node → ResultSet → ℕ → ℕ → ResultSet → Run Filters
make_join_filter_ops nodes result fuel where_node left_result = do
  filters ← make_where_ops nodes result fuel where_node
  ok (remap_filters (column_count left_result) filters)

pub data JoinType : Type 0 where
  op_join op_hashjoin : JoinType

abbrev is_equality : ℤ → Bool
is_equality (negsuc zero) = true
is_equality _ = false

-- `deduceJoinType`; a comparison has three numbers in its `boolExprList`, and a parenthesis none.
unfoldable pub deduce_join_type : Bool → Filters → JoinType
deduce_join_type enable_hj (comparison info operator_next none_left) =
    if is_equality info.bool_op && enable_hj then op_hashjoin else op_join
deduce_join_type enable_hj _ = op_join

-- The index of a left column stays, and that of a right column but the first becomes its index in
-- the right table. That of the first right column stays the number of left columns.
pub remap_index-columns :
    (columns i j : ℕ)
    → i < columns
    → 0 < j
    → (remap_index columns (pos i) ≡ pos i)
      × (remap_index columns (pos (columns + j)) ≡ pos j)
      × (remap_index columns (pos columns) ≡ pos columns)
unfolding remap_index ◌-ℤ◌
remap_index-columns columns i j lt later =
    (ground (arith, ◌-ℤ◌), ground (arith, ◌-ℤ◌), ground (arith, ◌-ℤ◌))
