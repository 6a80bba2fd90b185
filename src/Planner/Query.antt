-- ===== src/Planner/Query.antt =====
-- The planning of a query: src/planner/planner.c, `makeJoinOp` of src/planner/operators/join.c, and
-- src/planner/operators/insert.c and explain.c.
pub mod Tables
pub mod Enough
pub mod From
pub mod Whole
use squel.Common.{
  Bool, Bytes, List, Option, Run, at, exit, false, fault, leb, length, none, null_pointer, ok,
  out_of_fuel, require, some, suc, true, zero, ℕ, ◌*◌, ◌+◌, ◌>>=◌, ◌>>◌,
}
use squel.Config.{}
use squel.Parser.Syntax.{
  NodeType, filepath, ident_tbl, join, select, stmt_create, stmt_explain, stmt_insert,
}
use squel.Parser.Text.{max_query_size}
use squel.Parser.Tree.{Node, create_parsetree}
use squel.Parser.Statement.{parse}
use squel.Io.Files.{Files}
use squel.Io.Tdb.{Tdb}
use squel.Planner.Plan.{}
use squel.Planner.Result.{ResultSet}
use squel.Planner.Filter.Chain.{make_where_ops}
use squel.Planner.Join.{deduce_join_type, make_join_filter_ops}
use squel.Planner.Operator.{
  Operator, aggregation, copy_result_description, explanation, filtering, follow, insert_into,
  joining, no_result, projection, result_description,
}
use squel.Planner.Scan.{make_scan_op, make_scan_tdb_op}
use squel.Planner.Project.{is_ident_fun, make_aggregate_op, make_project_op}
use squel.Planner.Statement.{make_create_table}

-- `JOINTUPLESIZE`
abbrev pub join_tuple_size : ℕ
join_tuple_size = 1000

abbrev pub is_select : NodeType → Bool
is_select select = true
is_select _ = false

abbrev pub is_join : NodeType → Bool
is_join join = true
is_join _ = false

module _ (files : Files) (raw : Tdb) (enable_hj : Bool) (nodes : List Node) where
  -- `chooseScanOp`
  unfoldable pub choose_scan_op : Node → Run Operator
  choose_scan_op node = elim node.type [
    | filepath ↦ make_scan_op files node
    | ident_tbl ↦ make_scan_tdb_op raw files node
    | _ ↦ exit
  ]

  -- The description that `makeJoinOp` gives the join.
  unfoldable pub join_result : ResultSet → ResultSet → Run ResultSet
  join_result left right = do
    with_left ← copy_result_description left no_result
    with_both ← copy_result_description right with_left
    require (leb (left.size + right.size) join_tuple_size)
    ok (record with_both { size = left.size + right.size })

  -- `makeJoinOp`
  unfoldable pub make_join_op : ℕ → Operator → Operator → Option ℕ → Run Operator
  make_join_op fuel left right on_node = do
    result ← join_result (result_description left) (result_description right)
    on_place ← elim on_node [ none ↦ fault null_pointer | some p ↦ ok p ]
    filters ← make_join_filter_ops nodes result fuel on_place (result_description left)
    ok (joining (deduce_join_type enable_hj filters) filters result left right)

  -- `buildFrom`, at the first child of the FROM: behind it, JOIN, a table and ON may follow.
  unfoldable pub build_from : ℕ → Node → Run Operator
  build_from fuel node = do
    behind ← elim node.next [ none ↦ ok none | some p ↦ do n ← at nodes p; ok (some n) ]
    elim behind [
      | none ↦ choose_scan_op node
      | some next ↦ elim (is_join next.type) [
        | false ↦ choose_scan_op node
        | true ↦ do
          right_node ← follow nodes next.next
          right ← choose_scan_op right_node
          left ← choose_scan_op node
          make_join_op fuel left right right_node.next
      ]
    ]

  -- The loop of `buildSelect`: whether there is a function among the nodes from `p` on.
  unfoldable pub has_function : ℕ → ℕ → Run Bool
  has_function zero p = out_of_fuel
  has_function (suc fuel) p = do
    node ← at nodes p
    elim (is_ident_fun node.type) [
      | true ↦ ok true
      | false ↦ elim node.next [ none ↦ ok false | some q ↦ has_function fuel q ]
    ]

  -- `buildSelect` with the operator that it makes put above `child`.
  unfoldable pub build_select : ℕ → Option ℕ → Operator → Run Operator
  build_select fuel none child = fault null_pointer
  build_select fuel (some p) child = do
    is_aggregate ← has_function fuel p
    elim is_aggregate [
      | false ↦ do
        result ← make_project_op nodes (result_description child) fuel p
        ok (projection result child)
      | true ↦ do
        (aggtype, col, result) ← make_aggregate_op nodes (result_description child) fuel p
        ok (aggregation aggtype col result child)
    ]

  -- The WHERE of a `planSelect`, if there is one, above the operator of its FROM.
  unfoldable pub plan_where : ℕ → Option ℕ → Operator → Run Operator
  plan_where fuel none op_from = ok op_from
  plan_where fuel (some p) op_from = do
    filters ← make_where_ops nodes (result_description op_from) fuel p
    ok (filtering filters (result_description op_from) op_from)

  -- `planSelect`, at the node of the SELECT, behind which FROM and WHERE follow.
  unfoldable pub plan_select : ℕ → Node → Run Operator
  plan_select zero node = out_of_fuel
  plan_select (suc fuel) node = do
    from_node ← follow nodes node.next
    source_node ← follow nodes from_node.child
    op_from ← elim (is_select source_node.type) [
      | true ↦ plan_select fuel source_node
      | false ↦ build_from (suc fuel) source_node
    ]
    below ← plan_where (suc fuel) from_node.next op_from
    build_select (suc fuel) node.child below

  -- `planQueryAst`, `makeInsert` and `makeExplain`
  unfoldable pub plan_query_ast : ℕ → Node → Run Operator
  plan_query_ast zero node = out_of_fuel
  plan_query_ast (suc fuel) node = elim node.type [
    | stmt_create ↦ make_create_table nodes (suc fuel) node
    | select ↦ plan_select (suc fuel) node
    | stmt_insert ↦ do
      ident ← follow nodes node.next
      query ← follow nodes ident.next
      child ← plan_query_ast fuel query
      ok (insert_into ident.content child)
    | stmt_explain ↦ do
      query ← follow nodes node.next
      child ← plan_query_ast fuel query
      ok (explanation child)
    | _ ↦ exit
  ]

-- The fuel for a query that fills its array, which is enough for its parser.
abbrev pub query_fuel : ℕ
query_fuel = 3 * max_query_size + 3

-- `planQuery`; `next_to_child` is what an earlier query left in the parser.
unfoldable pub plan_query : Files → Tdb → Bool → Bytes → Bool → Run Operator
plan_query files raw enable_hj sql next_to_child = do
  ast ← create_parsetree
  (parsed, s) ← parse query_fuel sql next_to_child ast
  root_node ← at s.nodes 0
  node ← follow s.nodes root_node.next
  plan_query_ast files raw enable_hj s.nodes (length s.nodes) node
