-- ===== src/Tests/Shell.antt =====
-- The laws of whole queries and of what they print, at a small table.
use squel.Common.{
  Bytes, Ends, List, [], arith, at, bytes_eq, codes, false, ok, refl, replicate, some, true, ◌++◌,
  ◌∷◌, ◌≡◌,
}
use squel.Config.{}
use squel.Parser.Syntax.{dtype_long, dtype_str}
use squel.Planner.Result.{ColumnMetadata, ResultSet}
use squel.Planner.Operator.{projection, text_scan}
use squel.Planner.Query.{plan_query}
use squel.Planner.Query.Whole.{plan_query-Ends}
use squel.Io.Files.{Files, find_file}
use squel.Io.Tdb.{Tdb}
use squel.Io.TextFile.Lines.{}
use squel.Executor.Tuple.{
  Tuple, base, column_string, get_tuple_long_col_by_index, init_tuple_of_size, long_column,
  tpl_delimited,
}
use squel.Executor.Statements.{execute}
use squel.Operators.Source.{All}
use squel.Operators.Scan.Fields.{fields}
use squel.Operators.Scan.Stream.{AllTableLines, text_of}
use squel.Shell.Print.{decimal, long_text, print_tuple, tuple_col_value_to_char}
use squel.Shell.Fields.{IsWhole, PrintableLine}
use squel.Shell.Numbers.{long_column-printed}
use squel.Common.Int.{negsuc}
use squel.Shell.Tables.{execute-print_tuple}

abbrev shell_lines : List Bytes
shell_lines = codes "1;x" ∷ codes "22;" ∷ []

abbrev shell_files : Files
shell_files = (codes "./t.csv", text_of (codes "a;b" ∷ shell_lines)) ∷ []

shell_file-found :
    find_file shell_files (codes "./t.csv") ≡ some (text_of (codes "a;b" ∷ shell_lines))
unfolding find_file bytes_eq
shell_file-found = refl

abbrev no_tdb : Tdb
no_tdb = record { alias = []; records = 0; columns = []; path = []; metadata_size = 0 }

plan_query-Ends_example :
    Ends (plan_query shell_files no_tdb true (codes "SELECT SUM(a) FROM './t.csv'") false)
plan_query-Ends_example =
    plan_query-Ends shell_files no_tdb true (codes "SELECT SUM(a) FROM './t.csv'") false

abbrev text_column : Bytes → ColumnMetadata
text_column name = record {
  name = name;
  result_set_alias = [];
  type = dtype_str;
  size = 0;
  active = true;
}

abbrev two_columns : ResultSet
two_columns = record {
  columns = text_column (codes "a") ∷ text_column (codes "b") ∷ [];
  column_order = 0 ∷ 1 ∷ [];
  size = 0;
}

two_columns-IsWhole : IsWhole two_columns
two_columns-IsWhole = record {
  active = (refl, (refl, tt));
  order = refl;
  some_column = omega arith;
}

shell_lines-AllTableLines : AllTableLines shell_lines
unfolding fields
shell_lines-AllTableLines = (
  (
    record { no_zero = omega arith; no_lf = (refl, (refl, (refl, tt))); short = omega arith },
    omega arith,
  ),
  (
    (
      record { no_zero = omega arith; no_lf = (refl, (refl, (refl, tt))); short = omega arith },
      omega arith,
    ),
    tt,
  ),
)

shell_lines-Printable : All (PrintableLine two_columns) shell_lines
unfolding fields
shell_lines-Printable =
    ((refl, (omega arith, (omega arith, tt))), ((refl, (omega arith, (omega arith, tt))), tt))

execute-print_tuple_example :
    execute 3 3000
      (λ i. init_tuple_of_size 500)
      (replicate 200 1)
      no_tdb
      (projection two_columns (text_scan (codes "./t.csv") two_columns))
      print_tuple
      shell_files
      []
    ≡ ok (shell_files, [], text_of shell_lines)
execute-print_tuple_example =
    execute-print_tuple 3 3000 (λ i. init_tuple_of_size 500) (replicate 200 1) no_tdb shell_files
      (codes "./t.csv") two_columns two_columns-IsWhole (codes "a;b") shell_lines two_columns
      shell_file-found
      (record { no_zero = omega arith; no_lf = (refl, (refl, (refl, tt))); short = omega arith })
      (omega arith) shell_lines-AllTableLines shell_lines-Printable (omega arith)

-- A tuple of a table file with -42, and one of a text file with what is printed of it.
abbrev long_tuple : Tuple
long_tuple = record (init_tuple_of_size 8) { block = 214 ∷ replicate 7 255 }

abbrev text_tuple : Tuple
text_tuple = record (init_tuple_of_size 4) { block = codes "-42" ++ 0 ∷ []; type = tpl_delimited }

long_tuple-reads : get_tuple_long_col_by_index (base long_tuple) 0 ≡ ok (negsuc 41, base long_tuple)
unfolding get_tuple_long_col_by_index init_tuple_of_size at
long_tuple-reads = refl

long_tuple-printed :
    tuple_col_value_to_char (base long_tuple) 0 dtype_long ≡ ok (codes "-42", base long_tuple)
unfolding tuple_col_value_to_char get_tuple_long_col_by_index init_tuple_of_size long_text at
    decimal
long_tuple-printed = refl

text_tuple-holds : column_string text_tuple 0 ≡ ok (codes "-42")
unfolding column_string init_tuple_of_size at
text_tuple-holds = refl

long_column-printed_example : (tpl : Tuple) × (long_column text_tuple 0 ≡ ok (negsuc 41, tpl))
unfolding init_tuple_of_size at
long_column-printed_example =
    long_column-printed (base long_tuple) (base long_tuple) (base long_tuple) 0 (negsuc 41)
      (codes "-42") text_tuple 0 long_tuple-reads refl long_tuple-printed refl refl text_tuple-holds
      (omega arith) (omega arith) (omega arith)
