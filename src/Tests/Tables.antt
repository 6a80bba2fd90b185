-- ===== src/Tests/Tables.antt =====
-- The laws of table files, scans and statements at small tables.
use native.Mathlib.Nat.{}
use Prim.Native.String.{String}
use squel.Common.{
  Bytes, List, Run, [], arith, bytes_eq, codes, false, length, length-replicate, none, ok, refl,
  replicate, some, suc, take, true, ℕ, ◌*◌, ◌++◌, ◌+◌, ◌∷◌, ◌≡◌, ◌≤◌,
}
use squel.Config.{}
use squel.Parser.Syntax.{dtype_long, dtype_str, ident_tbl}
use squel.Parser.Tree.{Node}
use squel.Io.Files.{Files, find_file}
use squel.Io.Tdb.{
  Tdb, build_path_to_tdb_table, copy_string, read_tdb_metadata_from_fd, write_tdb_metadata_to_fd,
}
use squel.Io.Tdb.RoundTrip.{IsStorable, loaded, read_tdb_metadata-write, tdb_bytes}
use squel.Io.TextFile.Lines.{}
use squel.Planner.Plan.{}
use squel.Planner.Result.{ColumnMetadata}
use squel.Planner.Operator.{CreateInfo, table_scan}
use squel.Planner.Scan.{make_scan_tdb_op}
use squel.Planner.Scan.Tables.{planned_info, planned_result}
use squel.Executor.Tuple.{Row, base, init_tuple_of_size}
use squel.Executor.Tuple.Strings.{}
use squel.Executor.Execution.{tuple_loop}
use squel.Executor.Execution.Loop.{handled, tuple_loop-handled}
use squel.Executor.Statements.{execute_create_table}
use squel.Executor.Statements.Tables.{created, make_scan_tdb_op-create}
use squel.Executor.Statements.Inserted.{}
use squel.Executor.Statements.Reading.{}
use squel.Operators.Source.{OnBase, Yields}
use squel.Operators.Scan.{scan_source}
use squel.Operators.Scan.Fields.{fields}
use squel.Operators.Scan.Stream.{AllTableLines, FitsLine, HoldsLine, scan_source-Yields, text_of}
use squel.Operators.ScanTdb.{scan_tdb_source, unread_scan}
use squel.Operators.ScanTdb.Layout.{Fillable, IsLaidOut}
use squel.Operators.ScanTdb.Order.{blocks_reversed, flatten, read_order}
use squel.Operators.ScanTdb.Stream.{scan_tdb_source-Yields}

abbrev blank : Tdb
blank = record { alias = []; records = 0; columns = []; path = []; metadata_size = 0 }

abbrev pair_table : Tdb
pair_table = record blank {
  columns =
      record { name = codes "id"; datatype = dtype_long; width = 8 }
      ∷ record { name = codes "t"; datatype = dtype_str; width = 50 }
      ∷ [];
}

pair_table-IsStorable : IsStorable pair_table
pair_table-IsStorable = record { columns = omega arith; room = omega arith; records = omega arith }

-- The bytes that stand before the records.
abbrev pair_metadata : Bytes
pair_metadata = tdb_bytes pair_table

read_tdb_metadata-write_example :
    (r : Bytes × ℕ) × (write_tdb_metadata_to_fd pair_table ≡ ok r)
    × (read_tdb_metadata_from_fd blank (r.0 ++ 7 ∷ 8 ∷ [])
        ≡ ok (record blank {
          records = 0;
          columns = pair_table.columns;
          metadata_size = length r.0;
        }))
    × (r.1 + 4 ≡ length r.0)
read_tdb_metadata-write_example =
    read_tdb_metadata-write pair_table blank (7 ∷ 8 ∷ []) pair_table-IsStorable

-- A table of one column of one byte, and a file with a header of three bytes and three records.
abbrev byte_column : ColumnMetadata
byte_column = record {
  name = codes "b";
  result_set_alias = [];
  type = dtype_str;
  size = 1;
  active = true;
}

abbrev byte_files : Files
byte_files = (codes "b.tdb", 0 ∷ 0 ∷ 0 ∷ 5 ∷ 6 ∷ 7 ∷ []) ∷ []

byte_file-found :
    find_file byte_files (codes "b.tdb")
    ≡ some ((0 ∷ 0 ∷ 0 ∷ []) ++ (flatten ((5 ∷ []) ∷ (6 ∷ []) ∷ (7 ∷ []) ∷ []) ++ []))
unfolding find_file bytes_eq
byte_file-found = refl

-- Two records at a time: 6, 5 and then 7.
scan_tdb_source-Yields_example :
    Yields
      (scan_tdb_source byte_files (codes "b.tdb") (byte_column ∷ []) 1 (suc 1 * 1))
      (OnBase (λ tpl. Fillable (byte_column ∷ []) tpl × (1 ≤ length tpl.block)))
      (λ r. OnBase (λ tpl. IsLaidOut (byte_column ∷ []) tpl × (take 1 tpl.block ≡ r)))
      (read_order (suc 1) ((5 ∷ []) ∷ (6 ∷ []) ∷ (7 ∷ []) ∷ []))
      (unread_scan 3)
scan_tdb_source-Yields_example =
    scan_tdb_source-Yields byte_files (codes "b.tdb") (byte_column ∷ []) 1 1 (omega arith) refl
      (omega arith) [] (omega arith) (0 ∷ 0 ∷ 0 ∷ []) ((5 ∷ []) ∷ (6 ∷ []) ∷ (7 ∷ []) ∷ [])
      byte_file-found (refl, (refl, (refl, tt)))

read_order-blocks :
    read_order {A = Bytes} (suc 1) ((5 ∷ []) ∷ (6 ∷ []) ∷ (7 ∷ []) ∷ [])
    ≡ (6 ∷ []) ∷ (5 ∷ []) ∷ (7 ∷ []) ∷ []
unfolding blocks_reversed
read_order-blocks = refl

abbrev text_lines : List Bytes
text_lines = codes "1;x" ∷ codes ";" ∷ []

abbrev text_files : Files
text_files = (codes "t.csv", text_of (codes "a;b" ∷ text_lines)) ∷ []

text_file-found : find_file text_files (codes "t.csv") ≡ some (text_of (codes "a;b" ∷ text_lines))
unfolding find_file bytes_eq
text_file-found = refl

abbrev read_buffer : Bytes
read_buffer = replicate 200 1

text_lines-AllTableLines : AllTableLines text_lines
unfolding fields
text_lines-AllTableLines = (
  (
    record { no_zero = omega arith; no_lf = (refl, (refl, (refl, tt))); short = omega arith },
    omega arith,
  ),
  ((record { no_zero = omega arith; no_lf = (refl, tt); short = omega arith }, omega arith), tt),
)

scan_source-Yields_example :
    Yields
      (scan_source text_files (codes "t.csv") read_buffer)
      (OnBase FitsLine)
      (λ line. OnBase (HoldsLine line))
      text_lines
      (record { tablefile = none; freed = false })
scan_source-Yields_example =
    scan_source-Yields text_files (codes "t.csv") read_buffer (codes "a;b") text_lines
      text_file-found
      (record { no_zero = omega arith; no_lf = (refl, (refl, (refl, tt))); short = omega arith })
      (omega arith) text_lines-AllTableLines

-- Each tuple of the scan above is counted.
abbrev count_tuple : ℕ → Row → Run (Row × ℕ)
count_tuple n row = ok (row, n + 1)

fresh_tuple-FitsLine : FitsLine (init_tuple_of_size 500)
unfolding init_tuple_of_size
fresh_tuple-FitsLine =
    (record { offsets = refl; casted = refl }, omega (arith, length-replicate {A = ℕ} 500 0))

lines-Yields :
    Yields
      (scan_source text_files (codes "t.csv") read_buffer)
      (OnBase FitsLine)
      (λ line. OnBase (HoldsLine line))
      text_lines
      (record { tablefile = none; freed = false })
lines-Yields =
    scan_source-Yields text_files (codes "t.csv") read_buffer (codes "a;b") text_lines
      text_file-found
      (record { no_zero = omega arith; no_lf = (refl, (refl, (refl, tt))); short = omega arith })
      (omega arith) text_lines-AllTableLines

tuple_loop-handled_example :
    tuple_loop
      (scan_source text_files (codes "t.csv") read_buffer)
      count_tuple
      3
      (record { tablefile = none; freed = false })
      (base (init_tuple_of_size 500))
      0
    ≡ ok (handled (λ line n. n + 1) text_lines 0)
tuple_loop-handled_example =
    tuple_loop-handled (scan_source text_files (codes "t.csv") read_buffer) (OnBase FitsLine)
      (λ line. OnBase (HoldsLine line)) count_tuple (λ line n. n + 1)
      (λ line n row more fits shows. (row, refl, fits)) text_lines 3
      (record { tablefile = none; freed = false }) (base (init_tuple_of_size 500)) 0 (omega arith)
      fresh_tuple-FitsLine lines-Yields

-- CREATE TABLE p (id INT, t CHAR(50))
abbrev pair_info : CreateInfo
pair_info = record {
  columns =
      record {
        name = codes "id";
        result_set_alias = [];
        type = dtype_long;
        size = 0;
        active = false;
      }
      ∷ record {
        name = codes "t";
        result_set_alias = [];
        type = dtype_str;
        size = 50;
        active = false;
      }
      ∷ [];
  object_name = codes "p";
}

abbrev table_node : String → Node
table_node name = record {
  type = ident_tbl;
  content = codes name;
  next = none;
  child = none;
  alias = codes "x";
  tblref = [];
  identifier = 0;
}

make_scan_tdb_op-create_example :
    (files' : Files) × (execute_create_table blank text_files pair_info ≡ ok files')
    × (make_scan_tdb_op blank files' (table_node "p")
        ≡ ok (
            table_scan
              (planned_info
                (loaded blank (created blank pair_info) (codes "./data/p.tdb"))
                (codes "x"))
              (planned_result
                (loaded blank (created blank pair_info) (codes "./data/p.tdb"))
                (codes "x"))))
    × ((other : Bytes)
        → bytes_eq (codes "./data/p.tdb") other ≡ false
        → find_file files' other ≡ find_file text_files other)
unfolding build_path_to_tdb_table copy_string
make_scan_tdb_op-create_example =
    make_scan_tdb_op-create pair_info blank blank text_files (table_node "p") (codes "./data/p.tdb")
      (omega arith) (omega arith) refl (omega arith) (omega arith) refl refl (omega arith)
