-- ===== src/Planner/Catalog.antt =====
-- src/planner/catalog.c: the names and the types of the columns of a text file.
pub mod Columns
pub mod Types
pub mod Whole
use squel.Common.{
  Bool, Bytes, List, Run, [], defined, false, if◌then◌else◌, length, ltb, ok, out_of_bounds,
  require, true, ℕ, ◌&&◌, ◌++◌, ◌+◌, ◌==◌, ◌>>=◌, ◌>>◌, ◌∷◌,
}
use squel.Config.{array_max_size, char_max_size}
use squel.Parser.Syntax.{Datatype, dtype_long, dtype_str}
use squel.Parser.Text.{is_numeric}
use squel.Io.Files.{Files, file_exists, open_read}
use squel.Io.Tdb.{copy_string}
use squel.Io.TextFile.{read_line}

-- TableMetadata; `columnCount` is the length of the names. A column with no type in the first line has
-- the type 0.
pub record TableMetadata : Type 0 where
  pub path : Bytes
  pub names : List Bytes
  pub types : List Datatype

abbrev pub all_numeric : Bytes → Bool
all_numeric [] = true
all_numeric (c ∷ item) = is_numeric c && all_numeric item

-- `inferDatatype` of an item at the start of a buffer of `size` bytes that is zero behind it. Only an
-- item of digits is read to its terminator.
unfoldable pub infer_datatype : ℕ → Bytes → Run Datatype
infer_datatype size item =
    if all_numeric item
    then (do defined (ltb (length item) size) out_of_bounds; ok dtype_long)
    else ok dtype_str

-- The loop of `catalogFile` over the header, with the names before and the characters of the current
-- one. At a delimiter it writes a zero to the next name before it looks at the number of columns.
unfoldable pub names_loop : ℕ → Bytes → List Bytes → Bytes → Run (List Bytes)
names_loop delim [] names name = ok (names ++ name ∷ [])
names_loop delim (c ∷ header) names name =
    let next = names_loop delim header (names ++ name ∷ []) [] in
    let longer = names_loop delim header names (name ++ c ∷ []) in
    if c == delim
    then (do
      defined (ltb (length names + 1) array_max_size && ltb (length name + 1) char_max_size)
          out_of_bounds
      next)
    else (do
      defined (ltb (length names) array_max_size && ltb (length name) char_max_size) out_of_bounds
      longer)

-- The type of one more column.
unfoldable pub add_type : ℕ → List Datatype → Bytes → Run (List Datatype)
add_type size types item = do
  defined (ltb (length types) array_max_size) out_of_bounds
  type ← infer_datatype size item
  ok (types ++ type ∷ [])

-- The loop of `catalogFile` over the first line of `size` bytes, and what follows it.
unfoldable pub types_loop : ℕ → ℕ → Bytes → List Datatype → Bytes → Run (List Datatype)
types_loop delim size [] types item = add_type size types item
types_loop delim size (c ∷ line) types item = elim (c == delim) [
  | true ↦ do types' ← add_type size types item; types_loop delim size line types' []
  | false ↦ types_loop delim size line types (item ++ c ∷ [])
]

-- `catalogFile`
unfoldable pub catalog_file : Files → Bytes → ℕ → Run TableMetadata
catalog_file files path delim = do
  require (file_exists files path)
  content ← open_read files path
  (header, file) ← read_line content
  (first_line, rest) ← read_line file
  path' ← copy_string path
  names ← names_loop delim header [] []
  types ← types_loop delim (length first_line) first_line [] []
  ok (record { path = path'; names = names; types = types })
