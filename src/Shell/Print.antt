-- ===== src/Shell/Print.antt =====
-- What src/squel.c prints: the names of the columns, tuples, and the tree of a query.
use squel.Common.{
  Bool, Bytes, List, Run, [], at, codes, defined, exit, false, fault, if◌then◌else◌, indeterminate,
  length, ltb, none, ok, out_of_bounds, out_of_fuel, replicate, some, suc, true, zero, ℕ, ◌%◌, ◌++◌,
  ◌+◌, ◌/◌, ◌==◌, ◌>>=◌, ◌>>◌, ◌∷◌,
}
use squel.Common.Int.{negsuc, pos, ℤ}
use squel.Config.{char_max_size, delimiter, lf}
use squel.Parser.Syntax.{
  Datatype, NodeType, and, bool_op, column_list, cparen, datatype, dtype_int, dtype_long, dtype_str,
  dtype_undefined, expr, filepath, from, ident_col, ident_fun, ident_tbl, join, number, on, oparen,
  or, root, select, star, stmt_create, stmt_explain, stmt_insert, string, table, where_clause,
}
use squel.Parser.Tree.{Node}
use squel.Planner.Result.{ResultSet, column_count}
use squel.Executor.Tuple.{
  Row, c_string, column, get_tuple_col_by_index, get_tuple_long_col_by_index, is_casted,
}

-- The last `n` decimal digits of a number, without zeros in front.
unfoldable pub decimal : ℕ → ℕ → Bytes
decimal zero w = []
decimal (suc n) w =
    let front = if ltb w 10 then [] else decimal n (w / 10) in front ++ (b'0' + w % 10) ∷ []

-- A `long` in the format `%ld`, which has up to 19 digits.
unfoldable pub long_text : ℤ → Bytes
long_text (pos n) = decimal 19 n
long_text (negsuc n) = b'-' ∷ decimal 19 (suc n)

-- `tupleColValueToChar`, into a buffer of `CHARMAXSIZE`. An `int` is taken from `source`, which is
-- the function of the parser: what its code holds is nothing that the program has set.
unfoldable pub tuple_col_value_to_char : Row → ℕ → Datatype → Run (Bytes × Row)
tuple_col_value_to_char row col_idx dtype_str = do
  block ← get_tuple_col_by_index row col_idx
  text ← c_string block
  defined (ltb (length text) char_max_size) out_of_bounds
  ok (text, row)
tuple_col_value_to_char row col_idx dtype_int = fault indeterminate
tuple_col_value_to_char row col_idx dtype_long = do
  (num, row') ← get_tuple_long_col_by_index row col_idx
  ok (long_text num, row')
tuple_col_value_to_char row col_idx dtype_undefined = exit

-- The loop of `printTuple` over the places of the columns, with `firstPrinted` and the text so far.
unfoldable pub print_fields : ResultSet → List ℕ → Bool → Row → Bytes → Run (Row × Bytes)
print_fields result [] first_printed row printed = ok (row, printed)
print_fields result (col_idx ∷ order) first_printed row printed = do
  column ← at result.columns col_idx
  elim column.active [
    | false ↦ print_fields result order first_printed row printed
    | true ↦ do
      casted ← is_casted row col_idx
      (text, row') ← tuple_col_value_to_char row col_idx (if casted then column.type else dtype_str)
      print_fields result order true row' (printed ++ (if first_printed then b';' ∷ text else text))
  ]

-- `printTuple`, as the handler of tuples, with what was printed before.
unfoldable pub print_tuple : ResultSet → Bytes → Row → Run (Row × Bytes)
print_tuple result printed row = do
  (row', line) ← print_fields result result.column_order false row printed
  ok (row', line ++ lf ∷ [])

-- The loop of `printColnames`.
unfoldable pub print_names : ResultSet → List ℕ → Bool → Run Bytes
print_names result [] first_printed = ok []
print_names result (col_idx ∷ order) first_printed = do
  column ← at result.columns col_idx
  elim column.active [
    | false ↦ print_names result order first_printed
    | true ↦ do
      rest ← print_names result order true
      ok ((if first_printed then delimiter ∷ column.name else column.name) ++ rest)
  ]

-- `printColnames`
unfoldable pub print_colnames : ResultSet → Run Bytes
print_colnames result =
    if column_count result == 0
    then ok []
    else (do names ← print_names result result.column_order false; ok (names ++ lf ∷ []))

abbrev node_text : NodeType → Bytes
node_text stmt_insert = codes "STMTINSERT"
node_text stmt_create = codes "STMTCREATE"
node_text stmt_explain = codes "STMTEXPLAIN"
node_text expr = codes "EXPR"
node_text ident_col = codes "IDENT_COL"
node_text ident_tbl = codes "IDENT_TBL"
node_text filepath = codes "FILEPATH"
node_text string = codes "STRING"
node_text number = codes "NUMBER"
node_text select = codes "SELECT"
node_text ident_fun = codes "IDENT_FUN"
node_text join = codes "JOIN"
node_text star = codes "STAR"
node_text from = codes "FROM"
node_text where_clause = codes "WHERE"
node_text on = codes "ON"
node_text root = codes "ROOT"
node_text bool_op = codes "BOOLOP"
node_text datatype = codes "DATATYPE"
node_text column_list = codes "COLUMNLIST"
node_text and = codes "AND"
node_text table = codes "TABLE"
node_text or = codes "OR"
node_text oparen = codes "OPAREN"
node_text cparen = codes "CPAREN"

-- `printNode` at the place `p`, and `printNode` of a link that is not NULL.
unfoldable pub print_node : List Node → ℕ → ℕ → ℕ → Run Bytes
print_node nodes zero p depth = out_of_fuel
print_node nodes (suc fuel) p depth = do
  node ← at nodes p
  below ← elim node.child [ none ↦ ok [] | some c ↦ print_node nodes fuel c (depth + 1) ]
  behind ← elim node.next [ none ↦ ok [] | some q ↦ print_node nodes fuel q depth ]
  ok (replicate depth 9 ++ (node_text node.type ++ (lf ∷ (below ++ behind))))

-- `printParseTree`
unfoldable pub print_parse_tree : List Node → Run Bytes
print_parse_tree nodes = print_node nodes (length nodes) 0 0
