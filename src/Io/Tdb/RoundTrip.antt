-- ===== src/Io/Tdb/RoundTrip.antt =====
-- Metadata that is written can be read back.
use native.Mathlib.Nat.{}
use squel.Common.{
  Bytes, List, [], append_assoc, arith, encode, length, length-append, length-encode, le→leb,
  lt→ltb, ok, refl, some, ℕ, ◌++◌, ◌+◌, ◌<◌, ◌>>=◌, ◌^◌, ◌∷◌, ◌≡◌, ◌≤◌,
}
use squel.Config.{array_max_size, char_max_size}
use squel.Parser.Syntax.{Datatype, dtype_int, dtype_long, dtype_str, dtype_undefined}
use squel.Executor.Tuple.Strings.{NoZero, c_string-terminated}
use squel.Executor.Tuple.{column}
use squel.Io.Files.{Files, find_file, open_read, read_bytes-append, read_number-encode}
use squel.Io.Tdb.{
  Tdb, TdbColumn, code_datatype, column_bytes, copy_string, datatype_code, read_column,
  read_columns, read_tdb_metadata, read_tdb_metadata_from_fd, write_columns,
  write_tdb_metadata_to_fd,
}

-- The name is a C string in its array, and the width a byte.
abbrev pub Storable : TdbColumn → Type 0
Storable column = NoZero column.name × (length column.name < char_max_size) × (column.width < 256)

abbrev pub AllStorable : List TdbColumn → Type 0
AllStorable [] = Unit
AllStorable (column ∷ columns) = Storable column × AllStorable columns

code_datatype-code : (d : Datatype) → code_datatype (datatype_code d) ≡ ok d
unfolding code_datatype datatype_code
code_datatype-code dtype_str = refl
code_datatype-code dtype_int = refl
code_datatype-code dtype_undefined = refl
code_datatype-code dtype_long = refl

datatype_code-lt : (d : Datatype) → datatype_code d < 256 ^ 4
unfolding datatype_code
datatype_code-lt dtype_str = omega arith
datatype_code-lt dtype_int = omega arith
datatype_code-lt dtype_undefined = omega arith
datatype_code-lt dtype_long = omega arith

-- A column in the file, in the parts that `read_column` takes.
column_bytes-parts :
    (c : TdbColumn) (rest : Bytes)
    → column_bytes c ++ rest
      ≡ encode 1 (length c.name + 1)
        ++ ((c.name ++ 0 ∷ [])
            ++ (encode 4 (datatype_code c.datatype) ++ (encode 1 c.width ++ rest)))
unfolding column_bytes
column_bytes-parts c rest = simp append_assoc

abbrev pub column_size : TdbColumn → ℕ
column_size c = 1 + (length c.name + 1) + 4 + 1

read_column-bytes :
    (c : TdbColumn) (rest : Bytes)
    → Storable c
    → read_column (column_bytes c ++ rest) ≡ ok (c, column_size c, rest)
unfolding read_column
read_column-bytes c rest h = rw (
  column_bytes-parts c rest,
  read_number-encode 1 (length c.name + 1) _ (omega (arith, h.1)),
  ◌>>=◌,
  le→leb (length c.name + 1) char_max_size (omega (arith, h.1)),
  read_bytes-append (length c.name + 1) (c.name ++ 0 ∷ [])
      (encode 4 (datatype_code c.datatype) ++ (encode 1 c.width ++ rest))
      (omega (arith, length-append c.name (0 ∷ []))),
  c_string-terminated c.name [] h.0,
  read_number-encode 4 (datatype_code c.datatype) (encode 1 c.width ++ rest)
      (datatype_code-lt c.datatype),
  code_datatype-code c.datatype,
  read_number-encode 1 c.width rest (omega (arith, h.2)),
)

length-column_bytes : (c : TdbColumn) → length (column_bytes c) ≡ column_size c
unfolding column_bytes encode
length-column_bytes c = omega (
  arith,
  length-append c.name (0 ∷ []),
  length-append (c.name ++ 0 ∷ []) (encode 4 (datatype_code c.datatype) ++ encode 1 c.width),
)

abbrev pub sizes : List TdbColumn → ℕ
sizes [] = 0
sizes (c ∷ columns) = column_size c + sizes columns

abbrev pub contents : List TdbColumn → Bytes
contents [] = []
contents (c ∷ columns) = column_bytes c ++ contents columns

write_columns-contents :
    (columns : List TdbColumn)
    → AllStorable columns
    → write_columns columns ≡ ok (contents columns, sizes columns)
unfolding write_columns
write_columns-contents [] h = refl
write_columns-contents (c ∷ columns) h =
    rw (lt→ltb (length c.name) char_max_size h.0.1, ◌>>=◌, write_columns-contents columns h.1)

length-contents : (columns : List TdbColumn) → length (contents columns) ≡ sizes columns
length-contents [] = refl
length-contents (c ∷ columns) = omega (
  arith,
  length-contents columns,
  length-column_bytes c,
  length-append (column_bytes c) (contents columns),
)

read_columns-contents :
    (i : ℕ) (columns : List TdbColumn) (rest : Bytes)
    → AllStorable columns
    → i + length columns ≤ array_max_size
    → read_columns (length columns) i (contents columns ++ rest) ≡ ok (columns, sizes columns, rest)
unfolding read_columns
read_columns-contents i [] rest h room = refl
read_columns-contents i (c ∷ columns) rest h room = rw (
  append_assoc (column_bytes c) (contents columns) rest,
  lt→ltb i array_max_size (omega arith),
  ◌>>=◌,
  read_column-bytes c (contents columns ++ rest) h.0,
  read_columns-contents (i + 1) columns rest h.1 (omega arith),
)

-- The arrays are large enough, `records` is a number of 32 bits, and each column is `Storable`.
pub record IsStorable (tbl : Tdb) : Type 0 where
  pub columns : AllStorable tbl.columns
  pub room : length tbl.columns ≤ array_max_size
  pub records : tbl.records < 256 ^ 4

abbrev pub tdb_bytes : Tdb → Bytes
tdb_bytes tbl = encode 4 tbl.records ++ (encode 8 (length tbl.columns) ++ contents tbl.columns)

pub write_tdb_metadata_to_fd-bytes :
    (tbl : Tdb)
    → IsStorable tbl
    → write_tdb_metadata_to_fd tbl ≡ ok (tdb_bytes tbl, 4 + 4 + sizes tbl.columns)
unfolding write_tdb_metadata_to_fd
write_tdb_metadata_to_fd-bytes tbl h = rw (
  le→leb (length tbl.columns) array_max_size h.room,
  ◌>>=◌,
  write_columns-contents tbl.columns h.columns,
)

pub read_tdb_metadata_from_fd-bytes :
    (tbl raw : Tdb) (rest : Bytes)
    → IsStorable tbl
    → read_tdb_metadata_from_fd raw (tdb_bytes tbl ++ rest)
      ≡ ok (record raw {
        records = tbl.records;
        columns = tbl.columns;
        metadata_size = 4 + 8 + sizes tbl.columns;
      })
unfolding read_tdb_metadata_from_fd
read_tdb_metadata_from_fd-bytes tbl raw rest h = rw (
  append_assoc (encode 4 tbl.records) (encode 8 (length tbl.columns) ++ contents tbl.columns) rest,
  read_number-encode 4 tbl.records ((encode 8 (length tbl.columns) ++ contents tbl.columns) ++ rest)
      h.records,
  ◌>>=◌,
  append_assoc (encode 8 (length tbl.columns)) (contents tbl.columns) rest,
  read_number-encode 8 (length tbl.columns) (contents tbl.columns ++ rest) (omega (arith, h.room)),
  read_columns-contents 0 tbl.columns rest h.columns (omega (arith, h.room)),
)

pub length-tdb_bytes : (tbl : Tdb) → length (tdb_bytes tbl) ≡ 4 + 8 + sizes tbl.columns
length-tdb_bytes tbl = omega (
  arith,
  length-encode 4 tbl.records,
  length-encode 8 (length tbl.columns),
  length-contents tbl.columns,
  length-append (encode 4 tbl.records) (encode 8 (length tbl.columns) ++ contents tbl.columns),
  length-append (encode 8 (length tbl.columns)) (contents tbl.columns),
)

-- What reading the file of a table gives.
abbrev pub loaded : Tdb → Tdb → Bytes → Tdb
loaded raw tbl path = record raw {
  records = tbl.records;
  columns = tbl.columns;
  path = path;
  metadata_size = 4 + 8 + sizes tbl.columns;
}

pub read_tdb_metadata-bytes :
    (tbl raw : Tdb) (files : Files) (path rest : Bytes)
    → IsStorable tbl
    → find_file files path ≡ some (tdb_bytes tbl ++ rest)
    → length path < char_max_size
    → read_tdb_metadata raw files path ≡ ok (loaded raw tbl path)
unfolding read_tdb_metadata open_read copy_string
read_tdb_metadata-bytes tbl raw files path rest h found short = rw (
  found,
  ◌>>=◌,
  read_tdb_metadata_from_fd-bytes tbl raw rest h,
  lt→ltb (length path) char_max_size short,
)

-- For metadata that the arrays and the bytes of the format have room for, what is written before any
-- records is read back: the number of records, the columns, and as the size of the metadata the number of bytes
-- that were written, which is four more than the number that the writer counts.
pub read_tdb_metadata-write :
    (tbl raw : Tdb) (rest : Bytes)
    → IsStorable tbl
    → (r : Bytes × ℕ) × (write_tdb_metadata_to_fd tbl ≡ ok r)
      × (read_tdb_metadata_from_fd raw (r.0 ++ rest)
          ≡ ok (record raw {
            records = tbl.records;
            columns = tbl.columns;
            metadata_size = length r.0;
          }))
      × (r.1 + 4 ≡ length r.0)
read_tdb_metadata-write tbl raw rest h = (
  (tdb_bytes tbl, 4 + 4 + sizes tbl.columns),
  write_tdb_metadata_to_fd-bytes tbl h,
  rw (length-tdb_bytes tbl) (read_tdb_metadata_from_fd-bytes tbl raw rest h),
  omega (arith, length-tdb_bytes tbl),
)
