-- ===== src/Planner/Statement.antt =====
-- src/planner/operators/createtable.c: the columns of a CREATE TABLE.
use squel.Common.{
  List, Option, Run, [], at, defined, false, ltb, none, ok, out_of_bounds, out_of_fuel,
  signed_overflow, some, suc, to_unsigned, zero, ℕ, ◌+◌, ◌>>=◌, ◌>>◌, ◌∷◌,
}
use squel.Common.Int.{}
use squel.Config.{array_max_size}
use squel.Parser.Syntax.{dtype_str}
use squel.Parser.Tree.{Node}
use squel.Executor.Tuple.{atol, column, is_long}
use squel.Planner.Result.{ColumnMetadata}
use squel.Planner.Operator.{Operator, create_table, follow, map_parsed_datatype_to_enum_datatype}

-- The size of a CHAR, as its text says: a `long`, converted to a `size_t`.
unfoldable pub char_length : List Node → Node → Run ℕ
char_length nodes datatype_node = do
  length_node ← follow nodes datatype_node.child
  defined (is_long (atol length_node.content)) signed_overflow
  ok (to_unsigned (atol length_node.content))

module _ (nodes : List Node) where
  -- One round of the loop of `makeCreateTable`. What it prints of unexpected nodes changes nothing.
  unfoldable pub create_column : Node → Run ColumnMetadata
  create_column node = do
    datatype_node ← follow nodes node.child
    type ← map_parsed_datatype_to_enum_datatype datatype_node.content
    size ← elim type [ dtype_str ↦ char_length nodes datatype_node | _ ↦ ok 0 ]
    ok (record {
      name = node.content;
      result_set_alias = [];
      type = type;
      size = size;
      active = false;
    })

  -- The loop from the link `p` on, at column `i`.
  unfoldable pub create_columns : ℕ → ℕ → Option ℕ → Run (List ColumnMetadata)
  create_columns fuel i none = ok []
  create_columns zero i (some p) = out_of_fuel
  create_columns (suc fuel) i (some p) = do
    defined (ltb i array_max_size) out_of_bounds
    node ← at nodes p
    column ← create_column node
    columns ← create_columns fuel (i + 1) node.next
    ok (column ∷ columns)

  -- `makeCreateTable`, at the node of the CREATE: TABLE, the name and the list of columns follow it.
  unfoldable pub make_create_table : ℕ → Node → Run Operator
  make_create_table fuel node = do
    table_node ← follow nodes node.next
    ident ← follow nodes table_node.next
    list ← follow nodes ident.next
    columns ← create_columns fuel 0 list.child
    ok (create_table (record { columns = columns; object_name = ident.content }))
