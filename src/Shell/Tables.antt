-- ===== src/Shell/Tables.antt =====
-- What a query for all columns prints of a text file is the text of the file, without its first line.
use squel.Common.{
  Bytes, List, [], ap, append-nil, append_assoc, arith, false, length, length-replicate, ltb,
  lt→ltb, none, ok, refl, some, suc, sym, true, zero, ℕ, ◌++◌, ◌+◌, ◌<◌, ◌>>=◌, ◌∙◌, ◌∷◌, ◌≡◌, ◌≤◌,
}
use squel.Config.{lf, line_buff}
use squel.Io.Files.{Files, find_file}
use squel.Io.Tdb.{Tdb}
use squel.Io.TextFile.Lines.{IsLine}
use squel.Planner.Plan.{tuple_size}
use squel.Planner.Result.{ResultSet, column_count}
use squel.Parser.Syntax.{}
use squel.Planner.Scan.{count_up}
use squel.Planner.Operator.{projection, result_description, text_scan}
use squel.Executor.Tuple.{Row, Tuple, base, init_tuple_of_size, joined}
use squel.Executor.Execution.{assign_get_tuple, execute_select}
use squel.Executor.Execution.Loop.{Handles, handled, tuple_loop-handled}
use squel.Executor.Statements.{execute}
use squel.Operators.Source.{All, Gives-All, OnBase, Yields}
use squel.Operators.Project.{project_get_tuple, project_source}
use squel.Operators.Scan.{TextScan, scan_get_tuple, scan_source}
use squel.Operators.Scan.Fields.{}
use squel.Operators.Scan.Stream.{
  AllTableLines, FitsLine, HoldsLine, TableLine, scan_source-Yields, text_of,
}
use squel.Shell.Print.{print_tuple}
use squel.Executor.Execution.Loop.{}
use squel.Operators.Source.{}
use squel.Shell.Fields.{IsWhole, PrintableLine, print_tuple-line}

abbrev print_line : Bytes → Bytes → Bytes
print_line line printed = printed ++ (line ++ lf ∷ [])

handled-text :
    (lines : List Bytes) (printed : Bytes)
    → handled print_line lines printed ≡ printed ++ text_of lines
handled-text [] printed = sym (append-nil printed)
handled-text (line ∷ lines) printed =
    handled-text lines (print_line line printed)
    ∙ append_assoc printed (line ++ lf ∷ []) (text_of lines)
    ∙ ap (λ (t : Bytes). printed ++ t) (append_assoc line (lf ∷ []) (text_of lines))

abbrev unopened : TextScan
unopened = record { tablefile = none; freed = false }

module _ (fuel table_size : ℕ) (raw : ℕ → Tuple) (raw_buffer : Bytes) (raw_tdb : Tdb)
    (files : Files) (path : Bytes) (result : ResultSet) (whole : IsWhole result) where
  -- What the printing of a line needs to know of it.
  abbrev Wanted : Bytes → Type 0
  Wanted line = PrintableLine result line × TableLine line

  abbrev Shown : Bytes → Row → Type 0
  Shown line row = Wanted line × OnBase (HoldsLine line) row

  print_tuple-Handles :
      Handles
        (scan_source files path raw_buffer)
        (OnBase FitsLine)
        Shown
        (print_tuple result)
        print_line
  print_tuple-Handles line printed (base tpl) more fits (wanted, holds) = (
    base tpl,
    print_tuple-line result line tpl printed whole wanted.0 fits holds wanted.1.1,
    fits,
  )
  print_tuple-Handles line printed (joined tpl) more fits shown = absurd fits

  fresh-FitsLine : FitsLine (init_tuple_of_size tuple_size)
  unfolding init_tuple_of_size
  fresh-FitsLine = (
    record { offsets = refl; casted = refl },
    omega (arith, length-replicate {A = ℕ} tuple_size 0),
  )

  wanted :
      (lines : List Bytes)
      → All (PrintableLine result) lines
      → AllTableLines lines
      → All Wanted lines
  wanted [] able good = tt
  wanted (line ∷ lines) able good = ((able.0, good.0), wanted lines able.1 good.1)

  length-count_up : (i n : ℕ) → length (count_up i n) ≡ n
  length-count_up i zero = refl
  length-count_up i (suc n) = ap suc (length-count_up (i + 1) n)

  some_order : ltb 0 (length result.column_order) ≡ true
  some_order =
      lt→ltb 0 (length result.column_order)
        (rw (whole.order, length-count_up 0 (column_count result)) whole.some_column)

  -- Over a text file of lines that fit, each ended by a line feed, with as many fields as the result
  -- has columns, all of them active and in their order, and no field too long for the buffer that it
  -- is printed from: with fuel above the number of lines, what a projection of the file prints is
  -- the text of the file behind its first line. The files stay.
  pub execute-print_tuple :
      (header : Bytes) (lines : List Bytes) (child : ResultSet)
      → find_file files path ≡ some (text_of (header ∷ lines))
      → IsLine header
      → line_buff ≤ length raw_buffer
      → AllTableLines lines
      → All (PrintableLine result) lines
      → length lines < fuel
      → execute fuel table_size raw raw_buffer raw_tdb
          (projection result (text_scan path child))
          print_tuple
          files
          []
        ≡ ok (files, [], text_of lines)
  unfolding execute execute_select assign_get_tuple project_get_tuple result_description
  execute-print_tuple header lines child found is room good able enough =
      let scan = scan_source files path raw_buffer in
      let yields = scan_source-Yields files path raw_buffer header lines found is room good in
      let shown : Yields (project_source scan) (OnBase FitsLine) Shown lines unopened = λ row fits.
        Gives-All scan (OnBase FitsLine) (λ line. OnBase (HoldsLine line)) Wanted lines
          (scan_get_tuple files path raw_buffer unopened row) (wanted lines able good)
          (yields row fits) in
      let done =
        tuple_loop-handled (project_source scan) (OnBase FitsLine) Shown (print_tuple result)
          print_line print_tuple-Handles lines fuel unopened (base (init_tuple_of_size tuple_size))
          [] enough fresh-FitsLine shown in
      rw (some_order, ◌>>=◌, done, handled-text lines []) refl
