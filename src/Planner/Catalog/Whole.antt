-- ===== src/Planner/Catalog/Whole.antt =====
-- The catalog of a text file: names from the first line, and types from the second.
use squel.Common.{
  Bytes, List, [], ap, arith, fault, length, lt→ltb, map, ok, out_of_bounds, refl, some, ◌++◌, ◌<◌,
  ◌>>=◌, ◌∙◌, ◌∷◌, ◌≡◌, ◌≤◌,
}
use squel.Config.{array_max_size, char_max_size, delimiter, lf}
use squel.Parser.Syntax.{}
use squel.Parser.Text.{}
use squel.Io.Files.{Files, file_exists, find_file, open_read}
use squel.Io.Tdb.{copy_string}
use squel.Io.TextFile.{}
use squel.Io.TextFile.Lines.{IsLine}
use squel.Executor.Tuple.{}
use squel.Executor.Tuple.Strings.{}
use squel.Planner.Catalog.{catalog_file, names_loop, types_loop}
use squel.Planner.Catalog.Columns.{ShortName, continued_nil, names_loop-fields}
use squel.Operators.Source.{All}
use squel.Operators.Scan.Fields.{fields, length-terminated-fields}
use squel.Operators.Scan.Stream.{text_of}
use squel.Planner.Catalog.Types.{
  AllDigits, ShortItem, digits_over-read, fields_short, read_line-line, type_of, types_loop-fields,
}

-- For a file of lines that fit, each ended by a line feed, the first one with names that fit, no more
-- than a table may have, and the second one with at least two fields and no more than there may be
-- columns: the catalog has the fields of the first line as the names, and for each field of the
-- second one a number type, if it has digits only, or else the text type.
pub catalog_file-fields :
    (files : Files) (path header line : Bytes) (lines : List Bytes)
    → find_file files path ≡ some (text_of (header ∷ line ∷ lines))
    → length path < char_max_size
    → IsLine header
    → IsLine line
    → length (fields header) ≤ array_max_size
    → All ShortName (fields header)
    → 2 ≤ length (fields line)
    → length (fields line) ≤ array_max_size
    → catalog_file files path delimiter
      ≡ ok (record { path = path; names = fields header; types = map type_of (fields line) })
unfolding catalog_file copy_string open_read file_exists
catalog_file-fields files path header line lines found short ish isl few names two few' =
    let items : All (ShortItem (length line)) (fields line) =
      fields_short (fields line) 0 (length line) (omega (arith, length-terminated-fields line))
        (omega (arith, two)) in
    let nil = continued_nil header in
    let nil' = continued_nil line in
    let all_names : names_loop delimiter header [] [] ≡ ok (fields header) =
      names_loop-fields header [] [] (rw nil (omega (arith, few))) (rw nil names)
      ∙ ap (λ (t : List Bytes). ok t) nil in
    let all_types : types_loop delimiter (length line) line [] [] ≡ ok (map type_of (fields line)) =
      types_loop-fields (length line) line [] [] (rw nil' (omega (arith, few'))) (rw nil' items)
      ∙ ap (λ (t : List Bytes). ok (map type_of t)) nil' in
    rw
      (
        found,
        ◌>>=◌,
        read_line-line header (line ++ lf ∷ text_of lines) ish,
        read_line-line line (text_of lines) isl,
        lt→ltb (length path) char_max_size short,
        all_names,
        all_types,
      )
      refl

-- For a file of lines that fit, each ended by a line feed, the first one with names that fit, no more
-- than a table may have, and the second one a number alone: the catalog of the file ends in a read
-- past the end of a buffer.
pub catalog_file-over_read :
    (files : Files) (path header line : Bytes) (lines : List Bytes)
    → find_file files path ≡ some (text_of (header ∷ line ∷ lines))
    → length path < char_max_size
    → IsLine header
    → IsLine line
    → length (fields header) ≤ array_max_size
    → All ShortName (fields header)
    → AllDigits line
    → catalog_file files path delimiter ≡ fault out_of_bounds
unfolding catalog_file copy_string open_read file_exists
catalog_file-over_read files path header line lines found short ish isl few names digits =
    let nil = continued_nil header in
    let all_names : names_loop delimiter header [] [] ≡ ok (fields header) =
      names_loop-fields header [] [] (rw nil (omega (arith, few))) (rw nil names)
      ∙ ap (λ (t : List Bytes). ok t) nil in
    let over : types_loop delimiter (length line) line [] [] ≡ fault out_of_bounds =
      digits_over-read (length line) line [] (omega arith) digits tt in
    rw
      (
        found,
        ◌>>=◌,
        read_line-line header (line ++ lf ∷ text_of lines) ish,
        read_line-line line (text_of lines) isl,
        lt→ltb (length path) char_max_size short,
        all_names,
        over,
      )
      refl
