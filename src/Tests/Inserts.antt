-- ===== src/Tests/Inserts.antt =====
-- INSERT INTO b SELECT * FROM a, for two tables of one column CHAR(50).
use Prim.Native.String.{}
use squel.Common.{
  Bytes, List, Run, [], arith, at, at-get_or, bytes_eq, codes, encode, get_or, inl, length,
  length-replicate, length-take, le→leb, map, none, ok, refl, replicate, some, suc, take, true, ℕ,
  ◌*◌, ◌++◌, ◌+◌, ◌>>=◌, ◌∷◌, ◌≡◌, ◌≤◌,
}
use squel.Config.{tdb_record_max_size, tdb_scan_buff_records}
use squel.Parser.Syntax.{dtype_long, dtype_str, ident_tbl}
use squel.Parser.Tree.{Node}
use squel.Io.Files.{Files, find_file, write_file}
use squel.Io.Tdb.{Tdb, build_path_to_tdb_table, column_bytes, copy_string}
use squel.Io.Tdb.RoundTrip.{IsStorable, loaded, tdb_bytes}
use squel.Planner.Plan.{}
use squel.Planner.Result.{ColumnMetadata, ResultSet}
use squel.Planner.Operator.{Operator, ScanInfo, insert_into, result_description, table_scan}
use squel.Planner.Scan.{make_scan_tdb_op}
use squel.Planner.Scan.Tables.{planned_info, planned_result, scan_columns_of}
use squel.Executor.Tuple.{
  Row, Tuple, base, column, get_tuple_long_col_by_index, init_tuple_of_size, joined,
}
use squel.Executor.Tuple.Strings.{}
use squel.Executor.Execution.{assign_get_tuple}
use squel.Executor.Statements.Records.{record_loop-length, record_widths}
use squel.Executor.Statements.{check_types, column_record, execute, record_loop, text_bytes}
use squel.Executor.Statements.Inserted.{Matches, Writes}
use squel.Executor.Statements.Reading.{Query, scan-insert}
use squel.Operators.Source.{OnBase, Source, Yields}
use squel.Operators.ScanTdb.{scan_tdb_source, unread_scan}
use squel.Operators.ScanTdb.Layout.{Fillable, IsLaidOut}
use squel.Operators.ScanTdb.Order.{AllSized, blocks_reversed, flatten, read_order}
use squel.Operators.ScanTdb.Stream.{scan_tdb_source-Yields}

abbrev blank_tdb : Tdb
blank_tdb = record { alias = []; records = 0; columns = []; path = []; metadata_size = 0 }

abbrev text_table : Tdb
text_table = record blank_tdb {
  columns = record { name = codes "t"; datatype = dtype_str; width = 50 } ∷ [];
}

text_table-IsStorable : IsStorable text_table
text_table-IsStorable = record { columns = omega arith; room = omega arith; records = omega arith }

abbrev path_a : Bytes
path_a = codes "./data/a.tdb"

abbrev path_b : Bytes
path_b = codes "./data/b.tdb"

abbrev rows : List Bytes
rows = replicate 50 1 ∷ replicate 50 2 ∷ []

abbrev two_tables : Files
two_tables = (path_a, tdb_bytes text_table ++ flatten rows) ∷ (path_b, tdb_bytes text_table) ∷ []

abbrev columns_a : List ColumnMetadata
columns_a = scan_columns_of [] text_table.columns

abbrev scan_a : Operator
scan_a =
    table_scan (planned_info (loaded blank_tdb text_table path_a) [])
      (planned_result (loaded blank_tdb text_table path_a) [])

-- A tuple of the scan has its record at its start, and that is what is written.
text_column-Writes :
    (src : Source)
    → Writes src
        (OnBase (λ tpl. Fillable columns_a tpl × (50 ≤ length tpl.block)))
        (λ r. OnBase (λ tpl. IsLaidOut columns_a tpl × (take 50 tpl.block ≡ r)))
        (result_description scan_a)
        (λ r. r)
text_column-Writes src r (joined tpl) more fits shows = absurd fits
text_column-Writes src r (base tpl) more fits shows =
    let (laid, same) = shows in
    let room = fits.1 in
    let offset : get_or tpl.offsets 0 0 ≡ 0 = (laid.placed 0 (omega arith)).0 in
    let found : column tpl 0 ≡ ok tpl.block =
      unfold column in
      rw (at-get_or tpl.offsets 0 0 (omega (arith, laid.arrays.offsets)), ◌>>=◌, offset)
        (rw (le→leb 0 (length tpl.block) (omega arith)) refl) in
    let size : length (take 50 tpl.block) ≡ 50 = length-take 50 tpl.block room in
    let bytes : text_bytes (base tpl) 0 ≡ ok (take 50 tpl.block) =
      unfold text_bytes in rw (found, ◌>>=◌, le→leb 50 (length tpl.block) room) in
    let sized : length r ≡ 50 = rw same at size in
    (
      base tpl,
      unfold record_loop in
          (unfold column_record in
            (unfold result_description in
              rw (bytes, ◌>>=◌, same, le→leb (0 + length r) 1024 (omega (arith, sized))))),
      fits,
      omega (arith, sized),
    )

rows_a-Yields :
    (files : Files)
    → find_file files path_a ≡ some (tdb_bytes text_table ++ (flatten rows ++ []))
    → Yields
        (scan_tdb_source files path_a columns_a 50 (suc 9999 * 50))
        (OnBase (λ tpl. Fillable columns_a tpl × (50 ≤ length tpl.block)))
        (λ r. OnBase (λ tpl. IsLaidOut columns_a tpl × (take 50 tpl.block ≡ r)))
        (read_order (suc 9999) rows)
        (unread_scan (length (tdb_bytes text_table)))
rows_a-Yields files found =
    scan_tdb_source-Yields files path_a columns_a 50 9999 (omega arith) refl (omega arith) []
      (omega arith) (tdb_bytes text_table) rows found (refl, (refl, tt))

abbrev without_b : Files
without_b = write_file two_tables path_b []

without_b-found : find_file without_b path_a ≡ some (tdb_bytes text_table ++ (flatten rows ++ []))
unfolding find_file write_file bytes_eq
without_b-found = refl

abbrev scanned : Source
scanned = scan_tdb_source without_b path_a columns_a 50 (suc 9999 * 50)

abbrev FitsA : Row → Type 0
FitsA = OnBase (λ tpl. Fillable columns_a tpl × (50 ≤ length tpl.block))

abbrev ShowsA : Bytes → Row → Type 0
ShowsA r = OnBase (λ tpl. IsLaidOut columns_a tpl × (take 50 tpl.block ≡ r))

abbrev raw_tuple : ℕ → Tuple
raw_tuple i = init_tuple_of_size 500

scan_a-Query :
    Query 9 3000 raw_tuple [] blank_tdb scanned FitsA ShowsA
      (λ r. r)
      two_tables
      path_b
      scan_a
      (read_order (suc 9999) rows)
unfolding encode column_bytes
scan_a-Query = record {
  query = refl;
  state = unread_scan (length (tdb_bytes text_table));
  assigned = unfold assign_get_tuple in refl;
  writes = text_column-Writes scanned;
  fits =
      unfold init_tuple_of_size in
      (
        (record { offsets = refl; casted = refl }, inl refl),
        omega (arith, length-replicate {A = ℕ} 500 0),
      );
  yields = rows_a-Yields without_b without_b-found;
  enough = unfold blocks_reversed in omega arith;
}

scan_a-Matches : Matches two_tables (codes "b") path_b text_table scan_a
unfolding build_path_to_tdb_table copy_string find_file bytes_eq result_description check_types at
    encode column_bytes
scan_a-Matches = record {
  named = refl;
  old = [];
  exists = refl;
  storable = text_table-IsStorable;
  columns = refl;
  nonempty = omega arith;
  types = refl;
  short = omega arith;
}

abbrev keep_tuple : ResultSet → ℕ → Row → Run (Row × ℕ)
keep_tuple result n row = ok (row, n)

abbrev node_b : Node
node_b = record {
  type = ident_tbl;
  content = codes "b";
  next = none;
  child = none;
  alias = codes "x";
  tblref = [];
  identifier = 0;
}

reversed_rows-AllSized : AllSized 50 (map (λ r. r) (read_order (suc 9999) rows))
unfolding blocks_reversed
reversed_rows-AllSized = (refl, (refl, tt))

scan-insert_example :
    (files' : Files) × (info : ScanInfo) × (result : ResultSet) × (execute 9 3000 raw_tuple []
        blank_tdb
        (insert_into (codes "b") scan_a)
        keep_tuple
        two_tables
        0
      ≡ ok (files', [], 0))
    × (make_scan_tdb_op blank_tdb files' node_b ≡ ok (table_scan info result))
    × Yields
        (scan_tdb_source files' info.tbldef.path result.columns info.record_size info.buffer_size)
        (OnBase (λ tpl. Fillable result.columns tpl × (info.record_size ≤ length tpl.block)))
        (λ r. OnBase (λ tpl. IsLaidOut result.columns tpl × (take info.record_size tpl.block ≡ r)))
        (read_order tdb_scan_buff_records (map (λ r. r) (read_order (suc 9999) rows)))
        (unread_scan info.tbldef.metadata_size)
scan-insert_example =
    scan-insert 9 3000 raw_tuple [] blank_tdb scanned FitsA ShowsA (λ r. r) two_tables (codes "b")
      path_b text_table scan_a (read_order (suc 9999) rows) keep_tuple 0 node_b scan_a-Matches
      scan_a-Query (omega arith) reversed_rows-AllSized (omega arith) (omega arith) refl refl
      (omega arith)

-- A number and a text that the table declares with 20 bytes.
abbrev number_column : ColumnMetadata
number_column = record {
  name = codes "n";
  result_set_alias = [];
  type = dtype_long;
  size = 8;
  active = true;
}

abbrev narrow_column : ColumnMetadata
narrow_column = record number_column { type = dtype_str; size = 20 }

abbrev seven_tuple : Tuple
seven_tuple = record (init_tuple_of_size 58) { block = 7 ∷ replicate 57 0 }

abbrev seven_record : Bytes
seven_record = (7 ∷ replicate 7 0) ++ (7 ∷ replicate 49 0)

seven_tuple-record :
    record_loop 0 (number_column ∷ narrow_column ∷ []) (base seven_tuple) []
    ≡ ok (seven_record, base seven_tuple)
unfolding record_loop column_record text_bytes init_tuple_of_size get_tuple_long_col_by_index at
    encode
seven_tuple-record = refl

record_loop-length_example :
    (length seven_record ≡ 0 + record_widths (number_column ∷ narrow_column ∷ []))
    × (length seven_record ≤ tdb_record_max_size)
record_loop-length_example =
    record_loop-length 0 (number_column ∷ narrow_column ∷ []) (base seven_tuple) (base seven_tuple)
      [] seven_record (omega arith) seven_tuple-record
