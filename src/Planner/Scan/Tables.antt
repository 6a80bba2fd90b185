-- ===== src/Planner/Scan/Tables.antt =====
-- The scan that is planned for a table file with given metadata.
use native.Mathlib.Nat.{mod-eq_of_lt, mul_comm}
use squel.Common.{
  Bytes, List, [], arith, length, lt→ltb, map, ok, refl, some, true, ◌*◌, ◌++◌, ◌<◌, ◌>>=◌, ◌^◌,
  ◌∷◌, ◌≡◌, ◌≤◌,
}
use squel.Config.{array_max_size, char_max_size, tdb_scan_buff_records}
use squel.Parser.Syntax.{ident_tbl}
use squel.Parser.Tree.{Node}
use squel.Io.Files.{Files, file_exists, find_file}
use squel.Io.Tdb.{Tdb, TdbColumn, build_path_to_tdb_table, copy_string}
use squel.Io.Tdb.RoundTrip.{AllStorable, IsStorable, loaded, read_tdb_metadata-bytes, tdb_bytes}
use squel.Planner.Result.{ColumnMetadata, ResultSet}
use squel.Planner.Operator.{ScanInfo, table_scan}
use squel.Planner.Scan.{char_size, count_up, make_scan_tdb_op, tdb_columns}
use squel.Operators.ScanTdb.Layout.{total_size}

-- A `char` can hold the length of each column.
abbrev pub AllNarrow : List TdbColumn → Type 0
AllNarrow [] = Unit
AllNarrow (c ∷ cs) = (c.width < 128) × AllNarrow cs

-- The column of a scan over the table.
abbrev pub scan_column : Bytes → TdbColumn → ColumnMetadata
scan_column alias c = record {
  name = c.name;
  result_set_alias = alias;
  type = c.datatype;
  size = char_size c.width;
  active = true;
}

abbrev pub scan_columns_of : Bytes → List TdbColumn → List ColumnMetadata
scan_columns_of alias cs = map (scan_column alias) cs

total_size-bound :
    (alias : Bytes) (cs : List TdbColumn)
    → AllNarrow cs
    → total_size (scan_columns_of alias cs) ≤ 127 * length cs
total_size-bound alias [] h = omega arith
total_size-bound alias (c ∷ cs) h =
    let narrow : char_size c.width ≤ 127 = let k = h.0 in ground arith in
    omega (arith, total_size-bound alias cs h.1)

tdb_columns-scan :
    (alias : Bytes) (cs : List TdbColumn)
    → length alias < char_max_size
    → AllStorable cs
    → AllNarrow cs
    → length cs ≤ array_max_size
    → tdb_columns alias cs ≡ ok (scan_columns_of alias cs, total_size (scan_columns_of alias cs))
unfolding tdb_columns copy_string
tdb_columns-scan alias [] h storable narrow room = refl
tdb_columns-scan alias (c ∷ cs) h storable narrow room =
    let small : total_size (scan_columns_of alias (c ∷ cs)) < 2 ^ 64 =
      omega (arith, total_size-bound alias (c ∷ cs) narrow) in
    rw (
      lt→ltb (length c.name) char_max_size storable.0.1,
      ◌>>=◌,
      lt→ltb (length alias) char_max_size h,
      tdb_columns-scan alias cs h storable.1 narrow.1 (omega arith),
      mod-eq_of_lt small,
    )

-- The operator for a table: its records are read 10000 at a time.
abbrev pub planned_info : Tdb → Bytes → ScanInfo
planned_info tbldef alias = record {
  tbldef = tbldef;
  record_size = total_size (scan_columns_of alias tbldef.columns);
  buffer_size = tdb_scan_buff_records * total_size (scan_columns_of alias tbldef.columns);
}

abbrev pub planned_result : Tdb → Bytes → ResultSet
planned_result tbldef alias = record {
  columns = scan_columns_of alias tbldef.columns;
  column_order = count_up 0 (length (scan_columns_of alias tbldef.columns));
  size = total_size (scan_columns_of alias tbldef.columns);
}

pub make_scan_tdb_op-planned :
    (tbl raw : Tdb) (files : Files) (node : Node) (path rest : Bytes)
    → node.type ≡ ident_tbl
    → build_path_to_tdb_table node.content ≡ ok path
    → length node.alias < char_max_size
    → length path < char_max_size
    → IsStorable tbl
    → AllNarrow tbl.columns
    → find_file files path ≡ some (tdb_bytes tbl ++ rest)
    → make_scan_tdb_op raw files node
      ≡ ok (
          table_scan
            (planned_info (loaded raw tbl path) node.alias)
            (planned_result (loaded raw tbl path) node.alias))
unfolding make_scan_tdb_op file_exists
make_scan_tdb_op-planned tbl raw files node path rest kind named alias short storable narrow found =
    let total = total_size (scan_columns_of node.alias tbl.columns) in
    let bound : total * tdb_scan_buff_records < 2 ^ 64 =
      omega (arith, total_size-bound node.alias tbl.columns narrow, storable.room) in
    rw (
      kind,
      ◌>>=◌,
      named,
      found,
      read_tdb_metadata-bytes tbl raw files path rest storable found short,
      tdb_columns-scan node.alias tbl.columns alias storable.columns narrow storable.room,
      mod-eq_of_lt bound,
      mul_comm total tdb_scan_buff_records,
    )
