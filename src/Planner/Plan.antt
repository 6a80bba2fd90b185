-- ===== src/Planner/Plan.antt =====
-- src/include/planner/planner.h: the parts of a query plan that the operators read.
use squel.Common.{Bytes, List, ℕ}
use squel.Common.Int.{ℤ}
use squel.Parser.Syntax.{Datatype, NodeType}

-- `JOINTUPLESIZE`, `TUPLESIZE`
abbrev pub tuple_size : ℕ
tuple_size = 500

pub data ComparisonType : Type 0 where
  cmp_col_col cmp_const_const cmp_const_col cmp_col_const : ComparisonType

pub data AggregationType : Type 0 where
  count avg sum max min : AggregationType

-- What FilterInfo says of one comparison. `bool_expr_list` has the two column indices, or -1 for
-- a constant, and between them the operator; the constants stand at the places 0 and 2.
pub record FilterInfo : Type 0 where
  pub left_index : ℤ
  pub bool_op : ℤ
  pub right_index : ℤ
  pub left_type : Datatype
  pub right_type : Datatype
  pub char_constants : List Bytes
  pub num_constants : List ℤ
  pub comp_type : ComparisonType

-- The list of OP_FILTER operators behind `next`, where `none_left` is NULL. A wrapper stands for
-- a parenthesis, with the operators in it behind `child`. The node type is `operatorNext`.
pub data Filters : Type 0 where
  none_left : Filters
  comparison : FilterInfo → NodeType → Filters → Filters
  wrapper : Filters → NodeType → Filters → Filters
