-- ===== src/Executor/Statements/Reading.antt =====
-- The records that an INSERT has written are read by a scan of the table.
use squel.Common.{
  Bytes, List, Run, [], append-nil, arith, bytes_eq_refl, length, map, ok, refl, some, take, true,
  ℕ, ◌++◌, ◌<◌, ◌>>=◌, ◌≡◌, ◌≤◌,
}
use squel.Config.{char_max_size, tdb_scan_buff_records}
use squel.Parser.Syntax.{ident_tbl}
use squel.Parser.Tree.{Node}
use squel.Io.Files.{Files, find_file, find_file-write, write_file}
use squel.Io.Tdb.{Tdb}
use squel.Io.Tdb.RoundTrip.{length-tdb_bytes, loaded, tdb_bytes}
use squel.Planner.Plan.{tuple_size}
use squel.Planner.Result.{ResultSet}
use squel.Planner.Operator.{Operator, ScanInfo, insert_into, result_description, table_scan}
use squel.Planner.Scan.{make_scan_tdb_op}
use squel.Planner.Scan.Tables.{
  AllNarrow, make_scan_tdb_op-planned, planned_info, planned_result, scan_columns_of,
}
use squel.Executor.Tuple.{Row, Tuple, base, init_tuple_of_size, max_cols}
use squel.Executor.Execution.{assign_get_tuple}
use squel.Executor.Statements.{execute, execute_insert, handle_tuple_insert}
use squel.Executor.Statements.Inserted.{
  Matches, Writes, execute-query, execute_select-written, is_query, open_table_file-Matches,
}
use squel.Operators.Source.{OnBase, Source, Yields}
use squel.Operators.ScanTdb.{scan_tdb_source, unread_scan}
use squel.Operators.ScanTdb.Layout.{Fillable, IsLaidOut, total_size}
use squel.Operators.ScanTdb.Order.{AllSized, flatten, read_order}
use squel.Operators.ScanTdb.Stream.{scan_tdb_source-Yields}

-- The file of the table behind an INSERT.
abbrev pub stored_files : Files → Bytes → Tdb → List Bytes → Files
stored_files files path tbl records =
    write_file (write_file files path []) path (tdb_bytes tbl ++ flatten records)

module _ (fuel table_size : ℕ) (raw : ℕ → Tuple) (raw_buffer : Bytes) (raw_tdb : Tdb) {A : Type 0}
    (src : Source) (Fits : Row → Type 0) (Shows : A → Row → Type 0) (record_of : A → Bytes) where
  -- The query of an INSERT, of whose tuples the records are made.
  pub record Query (files : Files) (path : Bytes) (op : Operator) (items : List A) : Type 1 where
    pub query : is_query op ≡ true
    pub state : src.State
    pub assigned :
        assign_get_tuple fuel table_size raw raw_buffer (write_file files path []) op
        ≡ ok (record { source = src; state = state })
    pub writes : Writes src Fits Shows (result_description op) record_of
    pub fits : Fits (base (init_tuple_of_size tuple_size))
    pub yields : Yields src Fits Shows items state
    pub enough : length items < fuel

  execute-insert :
      {H : Type 0} (files : Files) (target path : Bytes) (tbl : Tdb) (op : Operator)
      (items : List A) (tuple_handler : ResultSet → H → Row → Run (Row × H)) (h : H)
      → Matches files target path tbl op
      → Query files path op items
      → execute fuel table_size raw raw_buffer raw_tdb (insert_into target op) tuple_handler files h
        ≡ ok (stored_files files path tbl (map record_of items), [], h)
  unfolding execute execute_insert
  execute-insert files target path tbl op items tuple_handler h m q =
      let result = result_description op in
      let nonempty : 0 < length result.column_order = omega (arith, m.columns, m.nonempty) in
      rw (
        execute_insert,
        open_table_file-Matches raw_tdb tbl fuel table_size raw raw_buffer files target path op m,
        ◌>>=◌,
        execute-query fuel table_size raw raw_buffer raw_tdb op handle_tuple_insert
            (write_file files path []) (tdb_bytes tbl) q.query,
        q.assigned,
        execute_select-written src Fits Shows result record_of q.writes items fuel q.state
            (tdb_bytes tbl) q.enough nonempty q.fits q.yields,
      )

  -- After an INSERT of the tuples of a query, which fit the table's columns and make up records of its size,
  -- a scan that is planned for the table yields those records, in blocks of 10000, each block from
  -- its last record to its first.
  pub scan-insert :
      {H : Type 0} (files : Files) (target path : Bytes) (tbl : Tdb) (op : Operator)
      (items : List A) (tuple_handler : ResultSet → H → Row → Run (Row × H)) (h : H) (node : Node)
      → Matches files target path tbl op
      → Query files path op items
      → AllNarrow tbl.columns
      → AllSized (total_size (scan_columns_of node.alias tbl.columns)) (map record_of items)
      → 0 < total_size (scan_columns_of node.alias tbl.columns)
      → length (scan_columns_of node.alias tbl.columns) ≤ max_cols
      → node.type ≡ ident_tbl
      → node.content ≡ target
      → length node.alias < char_max_size
      → (files' : Files) × (info : ScanInfo) × (result : ResultSet) × (execute fuel table_size raw
            raw_buffer raw_tdb
            (insert_into target op)
            tuple_handler
            files
            h
          ≡ ok (files', [], h))
        × (make_scan_tdb_op raw_tdb files' node ≡ ok (table_scan info result))
        × Yields
            (scan_tdb_source files' info.tbldef.path result.columns info.record_size
              info.buffer_size)
            (OnBase (λ tpl. Fillable result.columns tpl × (info.record_size ≤ length tpl.block)))
            (λ r.
              OnBase (λ tpl. IsLaidOut result.columns tpl × (take info.record_size tpl.block ≡ r)))
            (read_order tdb_scan_buff_records (map record_of items))
            (unread_scan info.tbldef.metadata_size)
  scan-insert files target path tbl op items tuple_handler h node m q narrow sized wide few kind
        same alias =
      let records = map record_of items in
      let files' = stored_files files path tbl records in
      let size = total_size (scan_columns_of node.alias tbl.columns) in
      let found : find_file files' path ≡ some (tdb_bytes tbl ++ flatten records) =
        rw (find_file-write (write_file files path []) path (tdb_bytes tbl ++ flatten records) path)
          (rw (bytes_eq_refl path) refl) in
      (
        files',
        planned_info (loaded raw_tdb tbl path) node.alias,
        planned_result (loaded raw_tdb tbl path) node.alias,
        execute-insert files target path tbl op items tuple_handler h m q,
        make_scan_tdb_op-planned tbl raw_tdb files' node path (flatten records) kind
            (rw same m.named) alias m.short m.storable narrow found,
        rw (← length-tdb_bytes tbl) (
            scan_tdb_source-Yields files' path (scan_columns_of node.alias tbl.columns) size 9999
              wide refl few [] wide (tdb_bytes tbl) records (rw append-nil found) sized),
      )
