-- ===== src/Executor/Statements/Tables.antt =====
-- What a CREATE TABLE leaves, a later query finds.
use squel.Common.{
  Bool-cases, Bytes, List, [], ap, append-nil, arith, bytes_eq, bytes_eq_refl, false, if◌then◌else◌,
  inl, inr, length, lt→ltb, map, ok, refl, some, sym, ◌%◌, ◌++◌, ◌<◌, ◌>>=◌, ◌∷◌, ◌≡◌, ◌≤◌,
}
use squel.Config.{array_max_size, char_max_size}
use squel.Parser.Syntax.{ident_tbl}
use squel.Parser.Tree.{Node}
use squel.Io.Files.{Files, find_file, find_file-write, write_file}
use squel.Io.Tdb.{Tdb, TdbColumn, build_path_to_tdb_table, copy_string, write_tdb_metadata}
use squel.Io.Tdb.RoundTrip.{
  AllStorable, IsStorable, loaded, tdb_bytes, write_tdb_metadata_to_fd-bytes,
}
use squel.Executor.Tuple.Strings.{NoZero}
use squel.Planner.Result.{ColumnMetadata}
use squel.Planner.Operator.{CreateInfo, table_scan}
use squel.Planner.Scan.{make_scan_tdb_op}
use squel.Planner.Scan.Tables.{AllNarrow, make_scan_tdb_op-planned, planned_info, planned_result}
use squel.Executor.Statements.{
  construct_tdb, execute_create_table, is_str, tdb_column, tdb_columns_of,
}

-- A column that a CREATE TABLE can store: a name that fits, and a length that a `char` holds.
abbrev pub Declarable : ColumnMetadata → Type 0
Declarable c = NoZero c.name × (length c.name < char_max_size) × (c.size < 128)

abbrev pub AllDeclarable : List ColumnMetadata → Type 0
AllDeclarable [] = Unit
AllDeclarable (c ∷ cs) = Declarable c × AllDeclarable cs

-- A `long` takes eight bytes, a text as many as were declared.
abbrev pub stored_column : ColumnMetadata → TdbColumn
stored_column c = record {
  name = c.name;
  datatype = c.type;
  width = if is_str c.type then c.size else 8;
}

stored-width :
    (c : ColumnMetadata)
    → c.size < 128
    → ((if is_str c.type then c.size else 8) % 256 ≡ (if is_str c.type then c.size else 8))
      × ((if is_str c.type then c.size else 8) < 128)
stored-width c h = elim (Bool-cases (is_str c.type)) [
  | inl e ↦ rw e (omega arith, h)
  | inr e ↦ rw e (omega arith, omega arith)
]

tdb_columns_of-stored :
    (cs : List ColumnMetadata)
    → AllDeclarable cs
    → (tdb_columns_of cs ≡ ok (map stored_column cs))
      × AllStorable (map stored_column cs)
      × AllNarrow (map stored_column cs)
unfolding tdb_columns_of tdb_column copy_string
tdb_columns_of-stored [] h = (refl, tt, tt)
tdb_columns_of-stored (c ∷ cs) h =
    let (run, storable, narrow) = tdb_columns_of-stored cs h.1 in
    let (wide, small) = stored-width c h.0.2 in
    (
      rw (lt→ltb (length c.name) char_max_size h.0.1, ◌>>=◌, wide, run),
      ((h.0.0, h.0.1, omega (arith, small)), storable),
      (small, narrow),
    )

-- The metadata that is stored; the other fields are not.
abbrev pub created : Tdb → CreateInfo → Tdb
created raw info = record raw {
  alias = info.object_name;
  records = 0;
  columns = map stored_column info.columns;
}

-- For columns with names that fit and lengths below 128, no more than 25, and a name of the table and a path that fit:
-- after a CREATE TABLE, a scan that is planned for the table has the declared columns, in their order,
-- with eight bytes for a number and the declared length for a text. Any other file is as before.
pub make_scan_tdb_op-create :
    (info : CreateInfo) (raw raw' : Tdb) (files : Files) (node : Node) (path : Bytes)
    → AllDeclarable info.columns
    → length (map stored_column info.columns) ≤ array_max_size
    → build_path_to_tdb_table info.object_name ≡ ok path
    → length info.object_name < char_max_size
    → length path < char_max_size
    → node.type ≡ ident_tbl
    → node.content ≡ info.object_name
    → length node.alias < char_max_size
    → (files' : Files) × (execute_create_table raw files info ≡ ok files')
      × (make_scan_tdb_op raw' files' node
          ≡ ok (
              table_scan
                (planned_info (loaded raw' (created raw info) path) node.alias)
                (planned_result (loaded raw' (created raw info) path) node.alias)))
      × ((other : Bytes)
          → bytes_eq path other ≡ false
          → find_file files' other ≡ find_file files other)
unfolding execute_create_table construct_tdb copy_string write_tdb_metadata
make_scan_tdb_op-create info raw raw' files node path good few named fits short kind same alias =
    let (run, storable, narrow) = tdb_columns_of-stored info.columns good in
    let tbl = created raw info in
    let is : IsStorable tbl = record { columns = storable; room = few; records = omega arith } in
    let found : find_file (write_file files path (tdb_bytes tbl)) path
        ≡ some (tdb_bytes tbl ++ []) =
      rw (find_file-write files path (tdb_bytes tbl) path, bytes_eq_refl path)
        (ap some (sym (append-nil (tdb_bytes tbl)))) in
    (
      write_file files path (tdb_bytes tbl),
      rw (
        run,
        ◌>>=◌,
        lt→ltb (length info.object_name) char_max_size fits,
        named,
        write_tdb_metadata_to_fd-bytes tbl is,
      ),
      make_scan_tdb_op-planned tbl raw' (write_file files path (tdb_bytes tbl)) node path [] kind
          (rw same named) alias short is narrow found,
      λ other ne. rw (find_file-write files path (tdb_bytes tbl) other, ne),
    )
