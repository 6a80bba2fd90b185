-- ===== src/Executor/Statements/Inserted.antt =====
-- What an INSERT leaves in the file of its table.
use squel.Common.{
  ==_iff, Bool, Bytes, List, Run, [], ap, append-nil, append_assoc, false, length, lt→ltb, map, ok,
  refl, some, sym, true, ℕ, ◌++◌, ◌<◌, ◌>>=◌, ◌∙◌, ◌∷◌, ◌≡◌,
}
use squel.Common.Int.{}
use squel.Config.{char_max_size}
use squel.Planner.Plan.{tuple_size}
use squel.Planner.Result.{ResultSet}
use squel.Planner.Operator.{
  Operator, aggregation, create_table, explanation, filtering, insert_into, joining, projection,
  result_description, table_scan, text_scan,
}
use squel.Io.Files.{Files, find_file}
use squel.Io.Tdb.{Tdb, build_path_to_tdb_table}
use squel.Io.Tdb.RoundTrip.{
  IsStorable, loaded, read_tdb_metadata-bytes, tdb_bytes, write_tdb_metadata_to_fd-bytes,
}
use squel.Executor.Tuple.{Row, Tuple, base, init_tuple_of_size, is_tuple_empty}
use squel.Executor.Execution.{assign_get_tuple, execute_select}
use squel.Executor.Execution.Loop.{Handles, handled, tuple_loop-handled}
use squel.Executor.Statements.{
  check_types, execute, handle_tuple_insert, open_table_file, record_loop,
}
use squel.Operators.Source.{Source, Yields}
use squel.Operators.ScanTdb.Order.{flatten}

-- An operator that hands out tuples.
abbrev pub is_query : Operator → Bool
is_query (create_table info) = false
is_query (insert_into target child) = false
is_query (explanation child) = false
is_query _ = true

module _ (fuel table_size : ℕ) (raw : ℕ → Tuple) (raw_buffer : Bytes) (raw_tdb : Tdb) where
  abbrev run_query :
      {H : Type 0}
      → Operator
      → (ResultSet → H → Row → Run (Row × H))
      → Files
      → H
      → Run (Files × Bytes × H)
  run_query op tuple_handler files h = do
    m ← assign_get_tuple fuel table_size raw raw_buffer files op
    h' ← execute_select fuel (result_description op) m (tuple_handler (result_description op)) h
    ok (files, [], h')

  pub execute-query :
      {H : Type 0} (op : Operator) (tuple_handler : ResultSet → H → Row → Run (Row × H))
      (files : Files) (h : H)
      → is_query op ≡ true
      → execute fuel table_size raw raw_buffer raw_tdb op tuple_handler files h
        ≡ run_query op tuple_handler files h
  unfolding execute
  execute-query (text_scan path result) t files h q = refl
  execute-query (table_scan info result) t files h q = refl
  execute-query (projection result child) t files h q = refl
  execute-query (filtering filters result child) t files h q = refl
  execute-query (joining type filters result left right) t files h q = refl
  execute-query (aggregation aggtype col result child) t files h q = refl
  execute-query (create_table info) t files h q = cc
  execute-query (insert_into target child) t files h q = cc
  execute-query (explanation child) t files h q = cc

-- The table's file has its metadata, and the query has columns of the types of the table's.
pub record Matches (files : Files) (target path : Bytes) (tbl : Tdb) (op : Operator) : Type 0 where
  pub named : build_path_to_tdb_table target ≡ ok path
  pub old : Bytes
  pub exists : find_file files path ≡ some (tdb_bytes tbl ++ old)
  pub storable : IsStorable tbl
  pub columns : length (result_description op).column_order ≡ length tbl.columns
  pub nonempty : 0 < length tbl.columns
  pub types : check_types (result_description op).columns tbl.columns ≡ ok tt
  pub short : length path < char_max_size

pub open_table_file-Matches :
    (raw_tdb tbl : Tdb) (fuel table_size : ℕ) (raw : ℕ → Tuple) (raw_buffer : Bytes) (files : Files)
    (target path : Bytes) (op : Operator)
    → Matches files target path tbl op
    → open_table_file fuel table_size raw raw_buffer raw_tdb files target op
      ≡ ok (path, tdb_bytes tbl)
unfolding open_table_file
open_table_file-Matches raw_tdb tbl fuel table_size raw raw_buffer files target path op m =
    let storable : IsStorable (loaded raw_tdb tbl path) = record {
      columns = m.storable.columns;
      room = m.storable.room;
      records = m.storable.records;
    } in
    rw
      (
        m.named,
        ◌>>=◌,
        read_tdb_metadata-bytes tbl raw_tdb files path m.old m.storable m.exists m.short,
        m.columns,
      )
      (rw (
        (==_iff (length tbl.columns) (length tbl.columns)).1 refl,
        m.types,
        write_tdb_metadata_to_fd-bytes (loaded raw_tdb tbl path) storable,
      ))

module _ {A : Type 0} (src : Source) (Fits : Row → Type 0) (Shows : A → Row → Type 0)
    (result : ResultSet) (record_of : A → Bytes) where
  -- The columns of a tuple make up the record of its item, and leave a tuple to be filled again.
  abbrev pub Writes : Type 0
  Writes =
      (a : A) (row : Row)
      → is_tuple_empty row ≡ false
      → Fits row
      → Shows a row
      → (row' : Row) × (record_loop 0 result.columns row [] ≡ ok (record_of a, row'))
        × Fits row'
        × (0 < length (record_of a))

  abbrev write_step : A → Bytes → Bytes
  write_step a f = f ++ record_of a

  Writes-Handles : Writes → Handles src Fits Shows (handle_tuple_insert result) write_step
  unfolding handle_tuple_insert
  Writes-Handles writes a f row more fits shows =
      let (row', run, fits', nonempty) = writes a row more fits shows in
      (row', rw (run, ◌>>=◌, lt→ltb 0 (length (record_of a)) nonempty), fits')

  handled-flatten :
      (items : List A) (f : Bytes) → handled write_step items f ≡ f ++ flatten (map record_of items)
  handled-flatten [] f = sym (append-nil f)
  handled-flatten (a ∷ items) f =
      handled-flatten items (f ++ record_of a)
      ∙ append_assoc f (record_of a) (flatten (map record_of items))

  -- What the query writes behind the metadata.
  pub execute_select-written :
      Writes
      → (items : List A) (fuel : ℕ) (s : src.State) (f : Bytes) → length items < fuel
      → 0 < length result.column_order
      → Fits (base (init_tuple_of_size tuple_size))
      → Yields src Fits Shows items s
      → execute_select fuel result
          (record { source = src; state = s })
          (handle_tuple_insert result)
          f
        ≡ ok (f ++ flatten (map record_of items))
  unfolding execute_select
  execute_select-written writes items fuel s f enough nonempty fits y =
      rw (lt→ltb 0 (length result.column_order) nonempty) (
        tuple_loop-handled src Fits Shows (handle_tuple_insert result) write_step
          (Writes-Handles writes) items fuel s (base (init_tuple_of_size tuple_size)) f enough fits
          y
        ∙ ap ok (handled-flatten items f))
