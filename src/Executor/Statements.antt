-- ===== src/Executor/Statements.antt =====
-- src/executor/statements: CREATE TABLE, EXPLAIN and the handler of INSERT; and `execute` of
-- src/executor/executor.c.
pub mod Tables
pub mod Inserted
pub mod Reading
pub mod Records
use squel.Common.{
  Bool, Bytes, List, Run, [], at, codes, defined, drop, encode, exit, false, if◌then◌else◌, leb,
  length, ltb, ok, out_of_bounds, replicate, require, take, to_unsigned, true, ℕ, ◌%◌, ◌++◌, ◌+◌,
  ◌==◌, ◌>>=◌, ◌>>◌, ◌∷◌,
}
use squel.Common.Int.{}
use squel.Config.{lf, tdb_max_string_size, tdb_record_max_size}
use squel.Parser.Syntax.{Datatype, datatype, datatype_eq, dtype_long, dtype_str}
use squel.Planner.Plan.{Filters, comparison, none_left, wrapper}
use squel.Planner.Result.{ColumnMetadata, ResultSet}
use squel.Planner.Join.{op_hashjoin, op_join}
use squel.Planner.Operator.{
  CreateInfo, Operator, aggregation, create_table, explanation, filtering, insert_into, joining,
  projection, result_description, table_scan, text_scan,
}
use squel.Io.Files.{Files, write_file}
use squel.Io.Tdb.{
  Tdb, TdbColumn, build_path_to_tdb_table, copy_string, read_tdb_metadata, write_tdb_metadata,
  write_tdb_metadata_to_fd,
}
use squel.Executor.Tuple.{Row, Tuple, base, column, get_tuple_long_col_by_index, joined}
use squel.Executor.Execution.{assign_get_tuple, execute_select}

-- What `constructTDB` makes of one column: a length is a `char`, so it keeps the low byte.
abbrev pub is_str : Datatype → Bool
is_str dtype_str = true
is_str _ = false

unfoldable pub tdb_column : ColumnMetadata → Run TdbColumn
tdb_column column = do
  name ← copy_string column.name
  ok (record {
    name = name;
    datatype = column.type;
    width = (if is_str column.type then column.size else 8) % 256;
  })

unfoldable pub tdb_columns_of : List ColumnMetadata → Run (List TdbColumn)
tdb_columns_of [] = ok []
tdb_columns_of (column ∷ columns) = do
  c ← tdb_column column
  cs ← tdb_columns_of columns
  ok (c ∷ cs)

-- `constructTDB`; `raw` is what the local structure holds.
unfoldable pub construct_tdb : Tdb → CreateInfo → Run Tdb
construct_tdb raw info = do
  columns ← tdb_columns_of info.columns
  ok (record raw { columns = columns; records = 0 })

-- `executeCreateTable`
unfoldable pub execute_create_table : Tdb → Files → CreateInfo → Run Files
execute_create_table raw files info = do
  tbl ← construct_tdb raw info
  alias ← copy_string info.object_name
  file_path ← build_path_to_tdb_table alias
  (files', written) ← write_tdb_metadata files file_path (record tbl { alias = alias })
  ok files'

-- `printOp`
unfoldable pub print_op : Operator → Bytes
print_op (table_scan info result) = codes "OP_SCANTDB"
print_op (text_scan path result) = codes "OP_SCAN"
print_op (projection result child) = codes "OP_PROJECT"
print_op (filtering filters result child) = codes "OP_FILTER"
print_op (joining op_join filters result left right) = codes "OP_JOIN"
print_op (joining op_hashjoin filters result left right) = codes "OP_HASHJOIN"
print_op (aggregation aggtype col result child) = codes "OP_AGGREGATE"
print_op (create_table info) = codes "OP_STMTCREATE"
print_op (insert_into target child) = codes "OP_STMTINSERT"
print_op (explanation child) = []

-- `explainOp` of a filter operator and those behind it; the operators in a parenthesis are not visited.
unfoldable pub explain_filters : Filters → Bytes
explain_filters none_left = []
explain_filters (comparison info next rest) = codes "OP_FILTER" ++ (lf ∷ explain_filters rest)
explain_filters (wrapper child next rest) = codes "OP_FILTER" ++ (lf ∷ explain_filters rest)

-- `explainOp`
unfoldable pub explain_op : Operator → Bytes
explain_op (filtering filters result child) = explain_filters filters ++ explain_op child
explain_op (joining type filters result left right) =
    print_op (joining type filters result left right)
    ++ (lf ∷ (explain_filters filters ++ (explain_op left ++ explain_op right)))
explain_op (projection result child) = print_op (projection result child) ++ (lf ∷ explain_op child)
explain_op (aggregation aggtype col result child) =
    print_op (aggregation aggtype col result child) ++ (lf ∷ explain_op child)
explain_op (insert_into target child) =
    print_op (insert_into target child) ++ (lf ∷ explain_op child)
explain_op (explanation child) = lf ∷ explain_op child
explain_op op = print_op op ++ lf ∷ []

-- `executeExplain`
unfoldable pub execute_explain : Operator → Bytes
execute_explain queryplan =
    codes "******* EXPLAIN **********"
    ++ (lf ∷ (explain_op queryplan ++ (codes "**************************" ++ lf ∷ [])))

-- `TDBMAXSTRINGSIZE` bytes from `tpl->data + tpl->offsets[i]`. The tuple of a join is the executor's own,
-- whose data and offsets nothing has changed from zero.
unfoldable pub text_bytes : Row → ℕ → Run Bytes
text_bytes (base tpl) i = do
  block ← column tpl i
  defined (leb tdb_max_string_size (length block)) out_of_bounds
  ok (take tdb_max_string_size block)
text_bytes (joined tpl) i = ok (replicate tdb_max_string_size 0)

-- The bytes of column `i` in a record. Any other type fails an assertion.
unfoldable pub column_record : Row → ℕ → Datatype → Run (Bytes × Row)
column_record row i dtype_long = do
  (num, row') ← get_tuple_long_col_by_index row i
  ok (encode 8 (to_unsigned num), row')
column_record row i dtype_str = do bytes ← text_bytes row i; ok (bytes, row)
column_record row i _ = exit

-- The loop of `handleTupleInsert`, with the bytes in `insertBuffer` so far.
unfoldable pub record_loop : ℕ → List ColumnMetadata → Row → Bytes → Run (Bytes × Row)
record_loop i [] row insert_buffer = ok (insert_buffer, row)
record_loop i (column ∷ columns) row insert_buffer = do
  (bytes, row') ← column_record row i column.type
  defined (leb (length insert_buffer + length bytes) tdb_record_max_size) out_of_bounds
  record_loop (i + 1) columns row' (insert_buffer ++ bytes)

-- `handleTupleInsert`, with what was written to `f` so far. An empty record fails an assertion.
unfoldable pub handle_tuple_insert : ResultSet → Bytes → Row → Run (Row × Bytes)
handle_tuple_insert result f row = do
  (bytes, row') ← record_loop 0 result.columns row []
  require (ltb 0 (length bytes))
  ok (row', f ++ bytes)

-- The loop of `executeInsert` over the columns of the query, with the types of the table that are left.
unfoldable pub check_types : List ColumnMetadata → List TdbColumn → Run (Unit {0})
check_types [] tbl = ok tt
check_types (column ∷ columns) tbl = elim column.active [
  | false ↦ check_types columns tbl
  | true ↦ do
    target ← at tbl 0
    require (datatype_eq column.type target.datatype)
    check_types columns (drop 1 tbl)
]

module _ (fuel table_size : ℕ) (raw : ℕ → Tuple) (raw_buffer : Bytes) (raw_tdb : Tdb) where
  -- What `executeInsert` does before it executes the query: the path of the table, and the metadata that it writes
  -- again, with the number of records that it has read.
  unfoldable pub open_table_file : Files → Bytes → Operator → Run (Bytes × Bytes)
  open_table_file files target op = do
    file_path ← build_path_to_tdb_table target
    tbl ← read_tdb_metadata raw_tdb files file_path
    let result = result_description op
    require (length result.column_order == length tbl.columns)
    check_types result.columns tbl.columns
    (bytes, written) ← write_tdb_metadata_to_fd tbl
    ok (file_path, bytes)

  -- `executeInsert` without `execute`, which is `run`. Meanwhile the file is empty: what is written to it is in the
  -- stream.
  unfoldable pub execute_insert :
      (Files → Bytes → Run (Files × Bytes × Bytes)) → Files → Bytes → Operator → Run (Files × Bytes)
  execute_insert run files target op = do
    (file_path, metadata) ← open_table_file files target op
    (files', printed, content) ← run (write_file files file_path []) metadata
    ok (write_file files' file_path content, printed)

  -- `execute`: the files, what statements print, and what the handler keeps.
  unfoldable pub execute :
      {H : Type 0}
      → Operator
      → (ResultSet → H → Row → Run (Row × H))
      → Files
      → H
      → Run (Files × Bytes × H)
  execute (create_table info) tuple_handler files h = do
    files' ← execute_create_table raw_tdb files info
    ok (files', [], h)
  execute (explanation child) tuple_handler files h = ok (files, execute_explain child, h)
  execute (insert_into target child) tuple_handler files h = do
    (files', printed) ←
        execute_insert (execute {H = Bytes} child handle_tuple_insert) files target child
    ok (files', printed, h)
  execute op tuple_handler files h = do
    m ← assign_get_tuple fuel table_size raw raw_buffer files op
    h' ← execute_select fuel (result_description op) m (tuple_handler (result_description op)) h
    ok (files, [], h')
