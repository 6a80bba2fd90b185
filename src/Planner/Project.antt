-- ===== src/Planner/Project.antt =====
-- src/planner/operators/project.c and src/planner/operators/aggregate.c: what a SELECT asks of its rows.
use squel.Common.{
  Bool, Bytes, List, Run, [], at, bytes_eq, codes, defined, exit, false, if◌then◌else◌, length, ltb,
  map, none, ok, out_of_bounds, out_of_fuel, require, set, some, suc, true, zero, ℕ, ◌++◌, ◌+◌, ◌-◌,
  ◌>>=◌, ◌>>◌, ◌^◌, ◌∷◌,
}
use squel.Common.Int.{negsuc, pos, ℤ}
use squel.Config.{array_max_size}
use squel.Parser.Syntax.{NodeType, dtype_long, ident_col, ident_fun, star}
use squel.Parser.Tree.{Node}
use squel.Io.Tdb.{copy_string}
use squel.Planner.Plan.{AggregationType, avg, count, max, min, sum}
use squel.Planner.Result.{ColumnMetadata, ResultSet, column_count, find_col_idx_in_res_desc}
use squel.Planner.Operator.{follow}
use squel.Planner.Scan.{count_up}

-- What `makeStarProjection` copies of a column; the alias of its table and its size stay empty.
abbrev pub star_column : ColumnMetadata → ColumnMetadata
star_column column = record column { result_set_alias = []; size = 0 }

-- `makeStarProjection`
unfoldable pub make_star_projection : ResultSet → ResultSet
make_star_projection child = record {
  columns = map star_column child.columns;
  column_order = count_up 0 (column_count child);
  size = 0;
}

-- `columns[j].active = …`
abbrev pub with_active : Bool → ColumnMetadata → ColumnMetadata
with_active active column = record column { active = active }

unfoldable pub activate : ℕ → List ColumnMetadata → Run (List ColumnMetadata)
activate j columns = do column ← at columns j; ok (set columns j (with_active true column))

-- An index that `findColIdxInResDesc` gives, as a `size_t`.
abbrev pub found_index : ℤ → ℕ
found_index (pos j) = j
found_index (negsuc j) = 2 ^ 64 - 1 - j

module _ (nodes : List Node) (child : ResultSet) where
  -- The loop of `makeProjectOp` at the node `p`, with the columns and their order so far.
  unfoldable pub project_loop :
      ℕ → ℕ → List ColumnMetadata → List ℕ → Run (List ColumnMetadata × List ℕ)
  project_loop zero p columns order = out_of_fuel
  project_loop (suc fuel) p columns order = do
    node ← at nodes p
    j ← find_col_idx_in_res_desc child node.content node.tblref
    columns' ← activate (found_index j) columns
    defined (ltb (length order) array_max_size) out_of_bounds
    let order' = order ++ found_index j ∷ []
    elim node.next [ none ↦ ok (columns', order') | some q ↦ project_loop fuel q columns' order' ]

  abbrev pub is_star : NodeType → Bool
  is_star star = true
  is_star _ = false

  -- `makeProjectOp`
  unfoldable pub make_project_op : ℕ → ℕ → Run ResultSet
  make_project_op fuel p = do
    node ← at nodes p
    let all = make_star_projection child
    if is_star node.type then ok all else (do
      (columns, order) ← project_loop fuel p (map (with_active false) all.columns) []
      ok (record all { columns = columns; column_order = order }))

-- `mapFunctionNameToAggregation`
unfoldable pub map_function_name_to_aggregation : Bytes → Run AggregationType
map_function_name_to_aggregation name =
    if bytes_eq name (codes "COUNT")
    then ok count
    else if bytes_eq name (codes "AVG")
    then ok avg
    else if bytes_eq name (codes "SUM")
    then ok sum
    else if bytes_eq name (codes "MAX")
    then ok max
    else if bytes_eq name (codes "MIN")
    then ok min
    else exit

abbrev pub is_ident_fun : NodeType → Bool
is_ident_fun ident_fun = true
is_ident_fun _ = false

abbrev pub is_ident_col : NodeType → Bool
is_ident_col ident_col = true
is_ident_col _ = false

-- The search of `makeAggregateOp` for the column, by its name alone.
unfoldable pub aggregate_column : ℕ → Bytes → List ColumnMetadata → Run ℕ
aggregate_column j name [] = exit
aggregate_column j name (column ∷ columns) =
    let rest = aggregate_column (j + 1) name columns in
    if bytes_eq name column.name then ok j else rest

-- The column of the result, which has the name of the argument.
abbrev pub aggregate_result : Bytes → ResultSet
aggregate_result name = record {
  columns =
      record { name = name; result_set_alias = []; type = dtype_long; size = 0; active = true }
      ∷ [];
  column_order = 0 ∷ [];
  size = 0;
}

module _ (nodes : List Node) (child : ResultSet) where
  -- The loop of `makeAggregateOp` to the first function.
  unfoldable pub find_function : ℕ → ℕ → Run Node
  find_function zero p = out_of_fuel
  find_function (suc fuel) p = do
    node ← at nodes p
    if is_ident_fun node.type
        then ok node
        else elim node.next [ none ↦ exit | some q ↦ find_function fuel q ]

  -- `makeAggregateOp`: the aggregation, the place of its column and the description. A function with no
  -- argument has no child, which is read all the same.
  unfoldable pub make_aggregate_op : ℕ → ℕ → Run (AggregationType × ℕ × ResultSet)
  make_aggregate_op fuel p = do
    node ← find_function fuel p
    aggtype ← map_function_name_to_aggregation node.content
    argument ← follow nodes node.child
    name ← copy_string argument.content
    require (is_ident_col argument.type)
    col ← aggregate_column 0 name child.columns
    ok (aggtype, col, aggregate_result name)
