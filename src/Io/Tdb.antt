-- ===== src/Io/Tdb.antt =====
-- src/io/tdb.c and src/include/io/tdb.h: what a `.tdb` file says of its table before the records.
pub mod RoundTrip
use squel.Common.{
  Bytes, List, Run, [], defined, encode, fault, if◌then◌else◌, indeterminate, leb, length, ltb, ok,
  out_of_bounds, suc, zero, ℕ, ◌++◌, ◌+◌, ◌==◌, ◌>>=◌, ◌>>◌, ◌∷◌,
}
use squel.Config.{array_max_size, char_max_size, data_path, tdb_file_ext}
use squel.Parser.Syntax.{Datatype, dtype_int, dtype_long, dtype_str, dtype_undefined}
use squel.Executor.Tuple.{c_string, column}
use squel.Io.Files.{Files, open_read, read_bytes, read_number, write_file}

-- A place in the arrays `colNames`, `datatypes` and `lengths`; a length is one byte.
pub record TdbColumn : Type 0 where
  pub name : Bytes
  pub datatype : Datatype
  pub width : ℕ

-- `colCount` is the length of the list.
pub record Tdb : Type 0 where
  pub alias : Bytes
  pub records : ℕ
  pub columns : List TdbColumn
  pub path : Bytes
  pub metadata_size : ℕ

-- The number of an enumeration's constant, in the four bytes of an `int`.
unfoldable pub datatype_code : Datatype → ℕ
datatype_code dtype_str = 0
datatype_code dtype_int = 1
datatype_code dtype_undefined = 2
datatype_code dtype_long = 3

unfoldable pub code_datatype : ℕ → Run Datatype
code_datatype code =
    if code == 0
    then ok dtype_str
    else if code == 1
    then ok dtype_int
    else if code == 2
    then ok dtype_undefined
    else if code == 3
    then ok dtype_long
    else fault indeterminate

-- What the body of the loop in `writeTdbMetadataToFD` writes. The byte before the name counts its
-- terminator.
unfoldable pub column_bytes : TdbColumn → Bytes
column_bytes column =
    encode 1 (length column.name + 1)
    ++ ((column.name ++ 0 ∷ [])
        ++ (encode 4 (datatype_code column.datatype) ++ encode 1 column.width))

-- The loop of `writeTdbMetadataToFD`: the bytes, and the number that it adds to `bytesWritten`.
-- `strlen` needs a terminator within the name's array.
unfoldable pub write_columns : List TdbColumn → Run (Bytes × ℕ)
write_columns [] = ok ([], 0)
write_columns (column ∷ columns) = do
  defined (ltb (length column.name) char_max_size) out_of_bounds
  (bytes, written) ← write_columns columns
  ok (column_bytes column ++ bytes, 1 + (length column.name + 1) + 4 + 1 + written)

-- `writeTdbMetadataToFD`. For the number of columns, of eight bytes, it counts the four bytes of
-- `records` once more.
unfoldable pub write_tdb_metadata_to_fd : Tdb → Run (Bytes × ℕ)
write_tdb_metadata_to_fd tbldef = do
  defined (leb (length tbldef.columns) array_max_size) out_of_bounds
  (bytes, written) ← write_columns tbldef.columns
  ok (encode 4 tbldef.records ++ (encode 8 (length tbldef.columns) ++ bytes), 4 + 4 + written)

-- `writeTdbMetadata`; that the file can be opened for writing is taken for granted.
unfoldable pub write_tdb_metadata : Files → Bytes → Tdb → Run (Files × ℕ)
write_tdb_metadata files path tbldef = do
  (bytes, written) ← write_tdb_metadata_to_fd tbldef
  ok (write_file files path bytes, written)

-- The body of the loop in `readTdbMetadaFromFD`. The length of a name is a signed `char`: one from
-- 128 on counts as negative, and becomes a very large number.
unfoldable pub read_column : Bytes → Run (TdbColumn × ℕ × Bytes)
read_column file = do
  (name_length, file₁) ← read_number 1 file
  defined (leb name_length char_max_size) out_of_bounds
  (chars, file₂) ← read_bytes name_length file₁
  name ← c_string chars
  (code, file₃) ← read_number 4 file₂
  datatype ← code_datatype code
  (width, file₄) ← read_number 1 file₃
  ok (record { name = name; datatype = datatype; width = width }, 1 + name_length + 4 + 1, file₄)

-- The loop of `readTdbMetadaFromFD` at column `i`, with `left` columns to go: the columns, what is
-- added to `metadataSize`, and the rest of the file.
unfoldable pub read_columns : ℕ → ℕ → Bytes → Run (List TdbColumn × ℕ × Bytes)
read_columns zero i file = ok ([], 0, file)
read_columns (suc left) i file = do
  defined (ltb i array_max_size) out_of_bounds
  (column, size, file') ← read_column file
  (columns, sizes, rest) ← read_columns left (i + 1) file'
  ok (column ∷ columns, size + sizes, rest)

-- `readTdbMetadaFromFD`; `raw` is what the local structure happens to hold.
unfoldable pub read_tdb_metadata_from_fd : Tdb → Bytes → Run Tdb
read_tdb_metadata_from_fd raw file = do
  (records, file₁) ← read_number 4 file
  (col_count, file₂) ← read_number 8 file₁
  (columns, sizes, file₃) ← read_columns col_count 0 file₂
  ok (record raw { records = records; columns = columns; metadata_size = 4 + 8 + sizes })

-- `strcpy` to an array of `CHARMAXSIZE`.
unfoldable pub copy_string : Bytes → Run Bytes
copy_string text = do defined (ltb (length text) char_max_size) out_of_bounds; ok text

-- `readTdbMetadata`
unfoldable pub read_tdb_metadata : Tdb → Files → Bytes → Run Tdb
read_tdb_metadata raw files path = do
  file ← open_read files path
  tbldef ← read_tdb_metadata_from_fd raw file
  path' ← copy_string path
  ok (record tbldef { path = path' })

-- `buildPathToTDBtable`, whose callers give it an array of `CHARMAXSIZE`.
unfoldable pub build_path_to_tdb_table : Bytes → Run Bytes
unfolding copy_string
build_path_to_tdb_table tbl_name =
    copy_string (data_path ++ (b'/' ∷ tbl_name) ++ (b'.' ∷ tdb_file_ext))
