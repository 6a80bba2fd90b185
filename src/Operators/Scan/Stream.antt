-- ===== src/Operators/Scan/Stream.antt =====
-- A scan of a text file as a source: the lines behind the first one, each split into its fields.
use squel.Common.{
  Bytes, List, Run, [], arith, at-get_or, drop, false, get_or, get_or-replicate, length,
  length-append, length-drop, length-replicate, le→leb, none, not, ok, refl, replicate, some, true,
  ℕ, ◌++◌, ◌+◌, ◌<◌, ◌>>=◌, ◌∷◌, ◌≡◌, ◌≤◌,
}
use squel.Config.{lf, line_buff}
use squel.Io.Files.{Files, find_file}
use squel.Io.TextFile.{fgets, read_line_to_buffer}
use squel.Io.TextFile.Lines.{IsLine, read_line_to_buffer-line}
use squel.Executor.Tuple.{
  Row, Tuple, base, column, column_string, is_tuple_empty, joined, max_cols, reset_tuple,
  tpl_delimited,
}
use squel.Executor.Tuple.Strings.{HasArrays, NoZero}
use squel.Operators.Source.{Gives, OnBase, Yields}
use squel.Operators.Scan.{TextScan, open_table, scan_get_tuple, scan_source}
use squel.Operators.Scan.Fields.{
  field_start, field_string, fields, length-terminated-fields, terminated,
}
use squel.Operators.Scan.Split.{IsSplit, split_loop-IsSplit}

-- A line of a table, with no more fields than a tuple has columns.
abbrev pub TableLine : Bytes → Type 0
TableLine line = IsLine line × (length (fields line) ≤ max_cols)

abbrev pub AllTableLines : List Bytes → Type 0
AllTableLines [] = Unit
AllTableLines (line ∷ lines) = TableLine line × AllTableLines lines

-- The text of some lines.
abbrev pub text_of : List Bytes → Bytes
text_of [] = []
text_of (line ∷ lines) = line ++ lf ∷ text_of lines

-- The columns of the tuple are the fields of the line, and none of them is cast.
abbrev pub HoldsLine : Bytes → Tuple → Type 0
HoldsLine line tpl =
    (tpl.size ≡ length line + 1)
    × (tpl.type ≡ tpl_delimited)
    × ((j : ℕ) → j < length (fields line) → column_string tpl j ≡ ok (get_or (fields line) j []))
    × ((j : ℕ) → get_or tpl.casted j false ≡ false)

-- A tuple with room for a line.
abbrev pub FitsLine : Tuple → Type 0
FitsLine tpl = HasArrays tpl × (line_buff ≤ length tpl.block)

column_string-IsSplit :
    (line rest : Bytes) (tpl out : Tuple) (j : ℕ)
    → NoZero line
    → length (fields line) ≤ max_cols
    → IsSplit 0 (fields line) [] rest tpl out
    → j < length (fields line)
    → column_string out j ≡ ok (get_or (fields line) j [])
unfolding column_string column
column_string-IsSplit line rest tpl out j nz few p h =
    let (inside, found) = field_string line rest j nz h in
    let offset : get_or out.offsets j 0 ≡ field_start (fields line) j =
      let e : 0 + j ≡ j = omega arith in omega (arith, rw e at (p.placed j h)) in
    rw (
      at-get_or out.offsets j 0 (omega (arith, p.arrays.offsets)),
      ◌>>=◌,
      offset,
      p.block,
      le→leb (field_start (fields line) j) (length (terminated (fields line) ++ rest)) inside,
      found,
    )

module _ (files : Files) (path : Bytes) (raw : Bytes) where
  -- The line is taken into the tuple and split.
  scan_get_tuple-line :
      (s : TextScan) (tpl : Tuple) (line rest : Bytes)
      → s.freed ≡ false
      → open_table files path raw s.tablefile ≡ ok (line ++ lf ∷ rest)
      → TableLine line
      → FitsLine tpl
      → (out : Tuple) × (scan_get_tuple files path raw s (base tpl)
          ≡ ok (base out, record s { tablefile = some rest }))
        × FitsLine out
        × HoldsLine line out
  unfolding scan_get_tuple reset_tuple
  scan_get_tuple-line s tpl line rest live open' (is, few) (arrays, room) =
      let others = 0 ∷ drop (length line + 2) tpl.block in
      let taken : Tuple = record tpl {
        block = line ++ 0 ∷ others;
        long_count = 0;
        casted = replicate max_cols false;
        type = tpl_delimited;
      } in
      let alive : not s.freed ≡ true = rw live refl in
      let (out, run, p) =
        split_loop-IsSplit max_cols 0 line [] others taken is.no_zero
          (record { offsets = arrays.offsets; casted = length-replicate max_cols false }) refl few
          (omega arith) in
      (
        out,
        rw (alive, ◌>>=◌, open', read_line_to_buffer-line line rest tpl.block is room)
            (rw run refl),
        (
          p.arrays,
          rw p.block (
              omega (
                arith,
                length-append (terminated (fields line)) others,
                length-terminated-fields line,
                length-drop (length line + 2) tpl.block,
              )),
        ),
        (
          omega (arith, p.size, length-terminated-fields line),
          p.type,
          λ j h. column_string-IsSplit line others taken out j is.no_zero few p h,
          p.uncasted (λ j. get_or-replicate max_cols j false),
        ),
      )

  abbrev TextGives : List Bytes → Run (Row × TextScan) → Type 0
  TextGives = Gives (scan_source files path raw) (OnBase FitsLine) (λ line. OnBase (HoldsLine line))

  -- The file is open, or is to be opened, with some lines left of it.
  abbrev Left : List Bytes → TextScan → Type 0
  Left lines s = (s.freed ≡ false) × (open_table files path raw s.tablefile ≡ ok (text_of lines))

  scan_get_tuple-end :
      (s : TextScan) (tpl : Tuple)
      → s.freed ≡ false
      → open_table files path raw s.tablefile ≡ ok []
      → (r : Row × TextScan) × (scan_get_tuple files path raw s (base tpl) ≡ ok r)
        × (is_tuple_empty r.0 ≡ true)
  unfolding scan_get_tuple reset_tuple read_line_to_buffer fgets is_tuple_empty
  scan_get_tuple-end s tpl live open' =
      let alive : not s.freed ≡ true = rw live refl in
      let reset : Tuple = reset_tuple (record tpl { type = tpl_delimited }) in
      (
        (base (record reset { size = 0 }), record { tablefile = some []; freed = true }),
        rw (alive, ◌>>=◌, open'),
        refl,
      )

  scan_get_tuple-TextGives :
      (lines : List Bytes) (s : TextScan) (row : Row)
      → AllTableLines lines
      → Left lines s
      → OnBase FitsLine row
      → TextGives lines (scan_get_tuple files path raw s row)
  scan_get_tuple-TextGives [] s (base tpl) good left fits = scan_get_tuple-end s tpl left.0 left.1
  scan_get_tuple-TextGives [] s (joined tpl) good left fits = absurd fits
  scan_get_tuple-TextGives (line ∷ lines) s (joined tpl) good left fits = absurd fits
  scan_get_tuple-TextGives (line ∷ lines) s (base tpl) good left fits =
      let (out, run, fits', holds) =
        scan_get_tuple-line s tpl line (text_of lines) left.0 left.1 good.0 fits in
      (
        (base out, record s { tablefile = some (text_of lines) }),
        run,
        unfold is_tuple_empty in rw holds.0 (ground arith),
        fits',
        holds,
        λ row fits'.
            scan_get_tuple-TextGives lines (record s { tablefile = some (text_of lines) }) row
              good.1 (left.0, unfold open_table in refl) fits',
      )

  -- Over a file of lines that fit, each ended by a line feed and with no more fields than a tuple has columns,
  -- a scan yields the lines behind the first one in their order. Each column of a tuple is one field
  -- of its line, as a string, and is not cast.
  pub scan_source-Yields :
      (header : Bytes) (lines : List Bytes)
      → find_file files path ≡ some (text_of (header ∷ lines))
      → IsLine header
      → line_buff ≤ length raw
      → AllTableLines lines
      → Yields
          (scan_source files path raw)
          (OnBase FitsLine)
          (λ line. OnBase (HoldsLine line))
          lines
          (record { tablefile = none; freed = false })
  unfolding open_table
  scan_source-Yields header lines found is room good row fits =
      scan_get_tuple-TextGives lines (record { tablefile = none; freed = false }) row good
        (refl, rw (found, open_table, read_line_to_buffer-line header (text_of lines) raw is room))
        fits
