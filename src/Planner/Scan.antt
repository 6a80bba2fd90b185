-- ===== src/Planner/Scan.antt =====
-- src/planner/operators/scan.c and src/planner/operators/scanTDB.c: the operators that read a table.
pub mod Tables
use squel.Common.{
  Bool, Bytes, List, Run, [], drop, exit, false, get_or, if◌then◌else◌, length, ltb, ok, require,
  suc, true, zero, ℕ, ◌%◌, ◌*◌, ◌+◌, ◌-◌, ◌>>=◌, ◌>>◌, ◌^◌, ◌∷◌,
}
use squel.Config.{delimiter, tdb_max_string_size, tdb_scan_buff_records}
use squel.Parser.Syntax.{
  Datatype, NodeType, dtype_int, dtype_long, dtype_str, dtype_undefined, filepath, ident_tbl,
}
use squel.Parser.Tree.{Node}
use squel.Io.Files.{Files, file_exists}
use squel.Io.Tdb.{Tdb, TdbColumn, build_path_to_tdb_table, copy_string, read_tdb_metadata}
use squel.Planner.Plan.{}
use squel.Planner.Result.{ColumnMetadata}
use squel.Planner.Catalog.{catalog_file}
use squel.Planner.Operator.{Operator, table_scan, text_scan}

-- `datatypeToSize`
unfoldable pub datatype_to_size : Datatype → Run ℕ
datatype_to_size dtype_int = ok 4
datatype_to_size dtype_long = ok 8
datatype_to_size dtype_str = ok tdb_max_string_size
datatype_to_size dtype_undefined = exit

abbrev pub is_filepath : NodeType → Bool
is_filepath filepath = true
is_filepath _ = false

abbrev pub is_ident_tbl : NodeType → Bool
is_ident_tbl ident_tbl = true
is_ident_tbl _ = false

-- 0, 1, …, n - 1
abbrev pub count_up : ℕ → ℕ → List ℕ
count_up i zero = []
count_up i (suc n) = i ∷ count_up (i + 1) n

-- The loop of `makeScanOp`: a column that has no type in the first line has the type 0.
unfoldable pub scan_columns : Bytes → List Bytes → List Datatype → Run (List ColumnMetadata)
scan_columns alias [] types = ok []
scan_columns alias (name ∷ names) types = do
  name' ← copy_string name
  alias' ← copy_string alias
  columns ← scan_columns alias names (drop 1 types)
  ok (
      record {
        name = name';
        result_set_alias = alias';
        type = get_or types 0 dtype_str;
        size = 0;
        active = true;
      }
      ∷ columns)

-- `makeScanOp`
unfoldable pub make_scan_op : Files → Node → Run Operator
make_scan_op files node = do
  require (is_filepath node.type)
  tbl ← catalog_file files node.content delimiter
  columns ← scan_columns node.alias tbl.names tbl.types
  ok (
      text_scan tbl.path (record {
        columns = columns;
        column_order = count_up 0 (length columns);
        size = length columns * tdb_max_string_size;
      }))

-- `(size_t) tbldef.lengths[i]`: a `char` is signed, so a byte from 128 on becomes a very large number.
abbrev pub char_size : ℕ → ℕ
char_size c = if ltb c 128 then c else c + 2 ^ 64 - 256

-- The loop of `makeScanTDBOp`: the columns, and the sum of their lengths as a `size_t`.
unfoldable pub tdb_columns : Bytes → List TdbColumn → Run (List ColumnMetadata × ℕ)
tdb_columns alias [] = ok ([], 0)
tdb_columns alias (c ∷ cs) = do
  name ← copy_string c.name
  alias' ← copy_string alias
  (columns, sizes) ← tdb_columns alias cs
  ok (
    record {
      name = name;
      result_set_alias = alias';
      type = c.datatype;
      size = char_size c.width;
      active = true;
    }
        ∷ columns,
    (char_size c.width + sizes) % 2 ^ 64,
  )

-- `makeScanTDBOp`; `raw` is what the structure for the metadata holds before. Allocation succeeds.
unfoldable pub make_scan_tdb_op : Tdb → Files → Node → Run Operator
make_scan_tdb_op raw files node = do
  require (is_ident_tbl node.type)
  path ← build_path_to_tdb_table node.content
  require (file_exists files path)
  tbldef ← read_tdb_metadata raw files path
  (columns, record_size) ← tdb_columns node.alias tbldef.columns
  ok (
      table_scan
        (record {
          tbldef = tbldef;
          record_size = record_size;
          buffer_size = record_size * tdb_scan_buff_records % 2 ^ 64;
        })
        (record {
          columns = columns;
          column_order = count_up 0 (length columns);
          size = record_size;
        }))
