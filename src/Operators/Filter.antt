-- ===== src/Operators/Filter.antt =====
-- src/operators/filter.c: the evaluation of comparisons, their conjunction and disjunction.
pub mod Comparison
pub mod Formula
pub mod Stream
use squel.Common.{
  Bool, Bytes, Run, at, decode, defined, exit, fault, if◌then◌else◌, leb, ltb, not, ok,
  out_of_bounds, require, signed, signed_overflow, strcmp, suc, true, zero, ℕ, ◌%◌, ◌&&◌, ◌-◌, ◌==◌,
  ◌>>=◌, ◌>>◌, ◌^◌, ◌||◌,
}
use squel.Common.Int.{ltb_ℤ, neg_part, negsuc, pos, pos_part, ℤ, ◌-ℤ◌}
use squel.Parser.Syntax.{
  Datatype, NodeType, and, datatype_eq, dtype_int, dtype_long, dtype_str, dtype_undefined, or,
}
use squel.Planner.Plan.{
  FilterInfo, Filters, cmp_col_col, cmp_col_const, cmp_const_col, cmp_const_const, comparison,
  none_left, wrapper,
}
use squel.Executor.Tuple.{
  Row, c_string, get_tuple_col_by_index, get_tuple_long_col_by_index, is_long,
}

-- The two tuples that a comparison reads: `filterGetTuple` passes one pointer twice, a join two.
pub data Operands : Type 0 where
  same : Row → Operands
  two : Row → Row → Operands

unfoldable pub first : Operands → Row
first (same row) = row
first (two left right) = left

unfoldable pub second : Operands → Row
second (same row) = row
second (two left right) = right

unfoldable pub put_first : Row → Operands → Operands
put_first row (same _) = same row
put_first row (two left right) = two row right

unfoldable pub put_second : Row → Operands → Operands
put_second row (same _) = same row
put_second row (two left right) = two left row

-- A conversion to `int` keeps the low 32 bits.
unfoldable pub to_int : ℤ → ℤ
to_int (pos n) = let w = n % 2 ^ 32 in if ltb w (2 ^ 31) then pos w else negsuc (2 ^ 32 - 1 - w)
to_int (negsuc n) = let w = n % 2 ^ 32 in if ltb w (2 ^ 31) then negsuc w else pos (2 ^ 32 - 1 - w)

-- `cmpRes = a - b` for two of type `long`, into an `int`.
unfoldable pub compare_longs : ℤ → ℤ → Run ℤ
unfolding ◌-ℤ◌ to_int
compare_longs a b = do defined (is_long (a -ℤ b)) signed_overflow; ok (to_int (a -ℤ b))

-- An `int` holds what a number of 32 bits can.
abbrev pub is_int : ℤ → Bool
is_int z = ltb (pos_part z) (2 ^ 31) && leb (neg_part z) (2 ^ 31)

-- `*(int*)` at the start of a column.
unfoldable pub read_int : Bytes → Run ℤ
unfolding decode
read_int block = do w ← decode 4 block; ok (signed (2 ^ 31) w)

-- An index of type `int` that is used to index an array.
abbrev pub as_index : ℤ → Run ℕ
as_index (pos i) = ok i
as_index (negsuc i) = fault out_of_bounds

unfoldable pub string_column : Row → ℤ → Run Bytes
unfolding get_tuple_col_by_index c_string
string_column row i = do j ← as_index i; block ← get_tuple_col_by_index row j; c_string block

unfoldable pub long_operand : Row → ℤ → Run (ℤ × Row)
unfolding get_tuple_long_col_by_index
long_operand row i = do j ← as_index i; get_tuple_long_col_by_index row j

-- 1. Both are columns.
unfoldable pub compare_columns : FilterInfo → Datatype → Operands → Run (ℤ × Operands)
compare_columns info dtype_str s = do
  a ← string_column (first s) info.left_index
  b ← string_column (second s) info.right_index
  ok (strcmp a b, s)
compare_columns info dtype_int s = do
  i ← as_index info.left_index
  a ← (do block ← get_tuple_col_by_index (first s) i; read_int block)
  j ← as_index info.right_index
  b ← (do block ← get_tuple_col_by_index (second s) j; read_int block)
  defined (is_int (a -ℤ b)) signed_overflow
  ok (a -ℤ b, s)
compare_columns info dtype_long s = do
  (a, row) ← long_operand (first s) info.left_index
  let s₁ = put_first row s
  (b, row') ← long_operand (second s₁) info.right_index
  cmp_res ← compare_longs a b
  ok (cmp_res, put_second row' s₁)
compare_columns info dtype_undefined s = exit

-- 2. Both are constants.
unfoldable pub compare_constants : FilterInfo → Datatype → Run ℤ
compare_constants info dtype_str = do
  a ← at info.char_constants 0
  b ← at info.char_constants 2
  ok (strcmp a b)
compare_constants info dtype_undefined = exit
compare_constants info _ = do
  a ← at info.num_constants 0
  b ← at info.num_constants 2
  compare_longs a b

-- 3. Left is a column, right is a constant.
unfoldable pub compare_column_constant : FilterInfo → Datatype → Operands → Run (ℤ × Operands)
compare_column_constant info dtype_str s = do
  constant ← at info.char_constants 2
  text ← string_column (first s) info.left_index
  ok (strcmp constant text, s)
compare_column_constant info dtype_long s = do
  (col_number, row) ← long_operand (first s) info.left_index
  const_number ← at info.num_constants 2
  cmp_res ← compare_longs col_number const_number
  ok (cmp_res, put_first row s)
compare_column_constant info _ s = exit

-- 4. Left is a constant, right is a column.
unfoldable pub compare_constant_column : FilterInfo → Datatype → Operands → Run (ℤ × Operands)
compare_constant_column info dtype_str s = do
  constant ← at info.char_constants 0
  text ← string_column (second s) info.right_index
  ok (strcmp constant text, s)
compare_constant_column info dtype_long s = do
  (col_number, row) ← long_operand (second s) info.right_index
  const_number ← at info.num_constants 0
  cmp_res ← compare_longs const_number col_number
  ok (cmp_res, put_second row s)
compare_constant_column info _ s = exit

abbrev pub eq_zero : ℤ → Bool
eq_zero z = pos_part z == 0 && neg_part z == 0

-- The last switch: what each code of an operator asks of `cmpRes`.
unfoldable pub test_result : ℤ → ℤ → Run Bool
test_result (pos n) cmp_res = exit
test_result (negsuc zero) cmp_res = ok (eq_zero cmp_res)
test_result (negsuc (suc zero)) cmp_res = ok (not (eq_zero cmp_res))
test_result (negsuc (suc (suc zero))) cmp_res = ok (ltb_ℤ cmp_res (pos 0))
test_result (negsuc (suc (suc (suc zero)))) cmp_res = ok (ltb_ℤ (pos 0) cmp_res)
test_result (negsuc (suc (suc (suc (suc zero))))) cmp_res = ok (not (ltb_ℤ cmp_res (pos 0)))
test_result (negsuc (suc (suc (suc (suc (suc zero)))))) cmp_res = ok (not (ltb_ℤ (pos 0) cmp_res))
test_result (negsuc (suc (suc (suc (suc (suc (suc n))))))) cmp_res = exit

unfoldable pub compare_operands : FilterInfo → Operands → Run (ℤ × Operands)
compare_operands info s = elim info.comp_type [
  | cmp_col_col ↦ compare_columns info info.left_type s
  | cmp_const_const ↦ do cmp_res ← compare_constants info info.left_type; ok (cmp_res, s)
  | cmp_col_const ↦ compare_column_constant info info.right_type s
  | cmp_const_col ↦ compare_constant_column info info.left_type s
]

-- `evaluateTupleAgainstFilterOp`
unfoldable pub evaluate_filter_op : FilterInfo → Operands → Run (Bool × Operands)
evaluate_filter_op info s = do
  require (datatype_eq info.left_type info.right_type)
  (cmp_res, s') ← compare_operands info s
  result ← test_result info.bool_op cmp_res
  ok (result, s')

-- The switch in the loop of `evaluateTuplesAgainstFilterOps`.
unfoldable pub combine : NodeType → Bool → Bool → Run Bool
combine and result rtrn_value = ok (result && rtrn_value)
combine or result rtrn_value = ok (result || rtrn_value)
combine _ result rtrn_value = exit

-- The loop: `op` joins the operator at hand to what came before it.
unfoldable pub evaluate_loop : Filters → NodeType → Bool → Operands → Run (Bool × Operands)
unfolding combine evaluate_filter_op
evaluate_loop none_left op rtrn_value s = ok (rtrn_value, s)
evaluate_loop (comparison info operator_next rest) op rtrn_value s = do
  (result, s') ← evaluate_filter_op info s
  value ← combine op result rtrn_value
  evaluate_loop rest operator_next value s'
evaluate_loop (wrapper child operator_next rest) op rtrn_value s = do
  (result, s') ← evaluate_loop child and true s
  value ← combine op result rtrn_value
  evaluate_loop rest operator_next value s'

-- `evaluateTuplesAgainstFilterOps`
unfoldable pub evaluate_filter_ops : Filters → Operands → Run (Bool × Operands)
unfolding evaluate_loop
evaluate_filter_ops filters s = evaluate_loop filters and true s
