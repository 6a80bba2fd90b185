-- ===== src/Operators/ScanTdb.antt =====
-- src/operators/scanTDB.c: the records of a table file, read a block at a time.
pub mod Layout
pub mod Order
pub mod Fill
pub mod Stream
use squel.Common.{
  Bool, Bytes, List, Option, Run, [], defined, division_by_zero, drop, false, fault, if◌then◌else◌,
  leb, length, ltb, none, not, null_pointer, ok, out_of_bounds, out_of_fuel, set, some, suc, take,
  true, use_after_free, zero, ℕ, ◌&&◌, ◌*◌, ◌++◌, ◌+◌, ◌-◌, ◌/◌, ◌==◌, ◌>>=◌, ◌>>◌, ◌||◌, ◌∷◌,
}
use squel.Io.Files.{Files, open_read}
use squel.Executor.Tuple.{Row, Tuple, base, column, joined, max_cols, tpl_tdb}
use squel.Planner.Result.{ColumnMetadata}
use squel.Operators.Source.{Source}

-- The fields of ScanInfo that change. `rest` is the file from its position on, or `none` where `fd`
-- is 0; `buffer` has the bytes that the last `read` gave, and `freed` says that it was freed.
pub record ScanState : Type 0 where
  pub rest : Option Bytes
  pub buffer : Bytes
  pub cursor : ℕ
  pub records_in_buffer : ℕ
  pub file_read : Bool
  pub freed : Bool

-- The loop of `scanTDBGetTuple` over the columns, from the one at `i` on, and what follows it.
unfoldable pub lay_columns : ℕ → ℕ → List ColumnMetadata → Tuple → Run Tuple
lay_columns i size [] tpl = ok (record tpl { size = size; tdb_offsets = true })
lay_columns i size (column ∷ columns) tpl = do
  defined (ltb i max_cols) out_of_bounds
  lay_columns (i + 1) (size + column.size) columns (record tpl {
    offsets = set tpl.offsets i size;
    casted = set tpl.casted i true;
    sizes = set tpl.sizes i column.size;
  })

-- Once for a tuple, its columns are placed.
unfoldable pub lay_out : List ColumnMetadata → Tuple → Run Tuple
lay_out columns tpl =
    let typed = record tpl { type = tpl_tdb } in
    if tpl.tdb_offsets then ok typed else lay_columns 0 0 columns typed

-- The copy of the first `n` of some bytes to the start of a block.
unfoldable pub copy_bytes : ℕ → Bytes → Bytes → Run Bytes
copy_bytes n bytes block = do
  defined (leb n (length bytes) && leb n (length block)) out_of_bounds
  ok (take n bytes ++ drop n block)

module _ (files : Files) (path : Bytes) (columns : List ColumnMetadata)
    (record_size buffer_size : ℕ) where
  -- The first lines of `fillBuffer`. A file that cannot be opened is found out by `read`, which fails.
  unfoldable pub opened : ScanState → Run Bytes
  opened s = elim s.rest [
    | some rest ↦ ok rest
    | none ↦ do content ← open_read files path; ok (drop s.cursor content)
  ]

  -- `fillBuffer`. `read` gives as many bytes of a file as there are, up to the size of the buffer.
  unfoldable pub fill_buffer : ScanState → Run ScanState
  fill_buffer s = do
    rest ← opened s
    let bytes = take buffer_size rest
    defined (ltb 0 record_size) division_by_zero
    ok (record s {
      rest = some (drop buffer_size rest);
      buffer = bytes;
      cursor = s.cursor + length bytes;
      records_in_buffer = length bytes / record_size;
      file_read = s.file_read || ltb (length bytes) buffer_size;
    })

  -- The last lines of `scanTDBGetTuple`: the last record of the buffer that is left.
  unfoldable pub take_record : Tuple → ScanState → Run (Row × ScanState)
  take_record tpl s = do
    block ←
        copy_bytes record_size (drop ((s.records_in_buffer - 1) * record_size) s.buffer) tpl.block
    ok (
      base (record tpl { block = block }),
      record s { records_in_buffer = s.records_in_buffer - 1 },
    )

  -- `scanTDBGetTuple`; `fuel` is for its call of itself behind `fillBuffer`.
  unfoldable pub scan_call : ℕ → ScanState → Tuple → Run (Row × ScanState)
  scan_call zero s tpl = out_of_fuel
  scan_call (suc fuel) s tpl = do
    tpl' ← lay_out columns tpl
    elim (s.records_in_buffer == 0) [
      | false ↦ take_record tpl' s
      | true ↦ elim s.file_read [
        | true ↦ do
          defined (not s.freed) use_after_free
          ok (base (record tpl' { size = 0 }), record s { freed = true })
        | false ↦ do s' ← fill_buffer s; scan_call fuel s' tpl'
      ]
    ]

  -- The caller passes a tuple that no join has filled.
  unfoldable pub scan_tdb_get_tuple : ScanState → Row → Run (Row × ScanState)
  scan_tdb_get_tuple s (base tpl) = scan_call 2 s tpl
  scan_tdb_get_tuple s (joined tpl) = fault null_pointer

  abbrev pub scan_tdb_source : Source
  scan_tdb_source = record { State = ScanState; get_tuple = scan_tdb_get_tuple }

-- ScanInfo as the planner makes it: `cursor` is behind the metadata.
unfoldable pub unread_scan : ℕ → ScanState
unread_scan metadata_size = record {
  rest = none;
  buffer = [];
  cursor = metadata_size;
  records_in_buffer = 0;
  file_read = false;
  freed = false;
}
