-- ===== src/Planner/Filter.antt =====
-- src/planner/operators/filter.c: the operators for the condition of a WHERE or an ON, read from the tree
-- in memory.
pub mod Chain
pub mod Enough
use squel.Common.{
  Bool, Bytes, List, Option, Run, [], at, bytes_eq, codes, defined, exit, false, if◌then◌else◌,
  none, ok, replicate, require, set, signed_overflow, some, true, ℕ, ◌<◌, ◌>>=◌, ◌>>◌,
}
use squel.Common.Int.{negsuc, pos, ℤ}
use squel.Config.{array_max_size}
use squel.Parser.Syntax.{
  Datatype, NodeType, bool_op, dtype_long, dtype_str, dtype_undefined, ident_col, number, string,
}
use squel.Parser.Tree.{Node}
use squel.Executor.Tuple.{atol, column, is_long}
use squel.Planner.Plan.{
  ComparisonType, FilterInfo, cmp_col_col, cmp_col_const, cmp_const_col, cmp_const_const,
}
use squel.Planner.Result.{ResultSet, find_col_idx_in_res_desc}

-- `mapNodeTypeToDataType`
unfoldable pub map_node_type_to_data_type : NodeType → Datatype
map_node_type_to_data_type number = dtype_long
map_node_type_to_data_type string = dtype_str
map_node_type_to_data_type _ = dtype_undefined

-- `mapBoolOpToInt`
unfoldable pub map_bool_op_to_int : Bytes → Run ℤ
map_bool_op_to_int text =
    if bytes_eq text (codes "=")
    then ok (negsuc 0)
    else if bytes_eq text (codes "!=")
    then ok (negsuc 1)
    else if bytes_eq text (codes "<")
    then ok (negsuc 2)
    else if bytes_eq text (codes ">")
    then ok (negsuc 3)
    else if bytes_eq text (codes ">=")
    then ok (negsuc 4)
    else if bytes_eq text (codes "<=")
    then ok (negsuc 5)
    else exit

abbrev pub is_col : NodeType → Bool
is_col ident_col = true
is_col _ = false

abbrev pub is_bool_op : NodeType → Bool
is_bool_op bool_op = true
is_bool_op _ = false

-- `checkPtrNotNull` of a pointer, and the node behind it.
abbrev pub node_behind : List Node → Option ℕ → Run (ℕ × Node)
node_behind nodes none = exit
node_behind nodes (some p) = do node ← at nodes p; ok (p, node)

-- A value's column, or -1.
unfoldable pub value_loc : ResultSet → Node → Run ℤ
value_loc result value =
    if is_col value.type
    then find_col_idx_in_res_desc result value.content value.tblref
    else ok (negsuc 0)

-- The three nodes of a comparison, of which the second is an operator.
pub record Compared : Type 0 where
  pub value1 : Node
  pub op : Node
  pub value2 : Node

-- The start of `mapBoolExpr`.
unfoldable pub compared_at : List Node → ℕ → Run Compared
compared_at nodes p = do
  value1 ← at nodes p
  (p₁, op) ← node_behind nodes value1.next
  (p₂, value2) ← node_behind nodes op.next
  require (is_bool_op op.type)
  ok (record { value1 = value1; op = op; value2 = value2 })

-- `boolExprList` as `mapBoolExpr` fills it.
unfoldable pub map_bool_expr : ResultSet → Compared → Run (ℤ × ℤ × ℤ)
map_bool_expr result c = do
  value1_loc ← value_loc result c.value1
  value2_loc ← value_loc result c.value2
  code ← map_bool_op_to_int c.op.content
  ok (value1_loc, code, value2_loc)

-- `boolExprAddDatatypes`, for one of the two values: an index is not negative for a column.
unfoldable pub value_datatype : ResultSet → Node → ℤ → Run Datatype
unfolding map_node_type_to_data_type
value_datatype result value (pos idx) = do column ← at result.columns idx; ok column.type
value_datatype result value (negsuc _) = ok (map_node_type_to_data_type value.type)

-- `deduceComparisonType`
unfoldable pub deduce_comparison_type : NodeType → NodeType → ComparisonType
deduce_comparison_type type1 type2 =
    if is_col type1
    then (if is_col type2 then cmp_col_col else cmp_col_const)
    else (if is_col type2 then cmp_const_col else cmp_const_const)

abbrev pub Constants : Type 0
Constants = List Bytes × List ℤ

-- `numConstants[i] = atol(...)`, where a number that does not fit is undefined.
unfoldable pub number_constant : ℕ → Bytes → Constants → Run Constants
number_constant i content (char_constants, num_constants) = do
  defined (is_long (atol content)) signed_overflow
  ok (set char_constants i content, set num_constants i (atol content))

-- One round of `boolExprAddConstants`, for the node at place `i`.
unfoldable pub add_constant : ℕ → Node → Constants → Run Constants
add_constant i node constants = elim node.type [
  | string ↦ ok (set constants.0 i node.content, constants.1)
  | number ↦ number_constant i node.content constants
  | _ ↦ ok constants
]

-- `boolExprAddConstants`
unfoldable pub bool_expr_add_constants : Compared → Run Constants
bool_expr_add_constants c = do
  left ← add_constant 0 c.value1 (replicate array_max_size [], replicate array_max_size (pos 0))
  middle ← add_constant 1 c.op left
  add_constant 2 c.value2 middle

-- `makeFilterOp`
unfoldable pub make_filter_op : List Node → ResultSet → ℕ → Run FilterInfo
unfolding deduce_comparison_type
make_filter_op nodes result p = do
  c ← compared_at nodes p
  (loc1, code, loc2) ← map_bool_expr result c
  (char_constants, num_constants) ← bool_expr_add_constants c
  type1 ← value_datatype result c.value1 loc1
  type2 ← value_datatype result c.value2 loc2
  ok (record {
    left_index = loc1;
    bool_op = code;
    right_index = loc2;
    left_type = type1;
    right_type = type2;
    char_constants = char_constants;
    num_constants = num_constants;
    comp_type = deduce_comparison_type c.value1.type c.value2.type;
  })
