-- ===== src/Operators/Scan.antt =====
-- src/operators/scan.c: the lines of a text file, split at the delimiter.
pub mod Fields
pub mod Split
pub mod Stream
use squel.Common.{
  Bool, Bytes, Option, Run, [], defined, drop, false, fault, if◌then◌else◌, leb, length, none, not,
  null_pointer, ok, out_of_bounds, set, some, suc, true, use_after_free, zero, ℕ, ◌+◌, ◌==◌, ◌>>=◌,
  ◌>>◌, ◌∷◌,
}
use squel.Config.{delimiter, line_buff}
use squel.Io.Files.{Files, find_file}
use squel.Io.TextFile.{read_line_to_buffer}
use squel.Executor.Tuple.{Row, Tuple, base, c_string, joined, max_cols, reset_tuple, tpl_delimited}
use squel.Operators.Source.{Source}

-- The fields of ScanInfo that change: `tablefile`, as the rest of the file, or `none` for NULL.
pub record TextScan : Type 0 where
  pub tablefile : Option Bytes
  pub freed : Bool

-- The place of the delimiter that `strchr` finds.
unfoldable pub find_delimiter : Bytes → Option ℕ
find_delimiter [] = none
find_delimiter (c ∷ text) =
    let rest = find_delimiter text in
    if c == delimiter then some 0 else elim rest [ none ↦ none | some i ↦ some (i + 1) ]

-- The loop of `scanGetTuple` at column `i`, where the tuple's arrays have `left` more places.
unfoldable pub split_loop : ℕ → ℕ → ℕ → ℕ → Tuple → Run Tuple
split_loop zero i cursor tpl_size tpl = fault out_of_bounds
split_loop (suc left) i cursor tpl_size tpl = do
  defined (leb cursor (length tpl.block)) out_of_bounds
  text ← c_string (drop cursor tpl.block)
  elim (find_delimiter text) [
    | none ↦ ok (record tpl {
      sizes = set tpl.sizes i (length text + 1);
      offsets = set tpl.offsets i tpl_size;
      casted = set tpl.casted i false;
      size = tpl_size + (length text + 1);
    })
    | some k ↦ split_loop left (i + 1) (cursor + (k + 1)) (tpl_size + (k + 1)) (record tpl {
      block = set tpl.block (cursor + k) 0;
      sizes = set tpl.sizes i (k + 1);
      offsets = set tpl.offsets i tpl_size;
      casted = set tpl.casted i false;
    })
  ]

module _ (files : Files) (path : Bytes) (raw : Bytes) where
  -- The first call opens the file and reads its first line, into a buffer that holds `raw`.
  unfoldable pub open_table : Option Bytes → Run Bytes
  open_table (some file) = ok file
  open_table none = elim (find_file files path) [
    | none ↦ fault null_pointer
    | some content ↦ do
      line ← read_line_to_buffer content raw line_buff
      ok (elim line [ none ↦ content | some (rest, buff) ↦ rest ])
  ]

  -- `scanGetTuple`. The caller passes a tuple that no join has filled.
  unfoldable pub scan_get_tuple : TextScan → Row → Run (Row × TextScan)
  scan_get_tuple s (joined tpl) = fault null_pointer
  scan_get_tuple s (base tpl) = do
    defined (not s.freed) use_after_free
    file ← open_table s.tablefile
    let tpl₁ = reset_tuple (record tpl { type = tpl_delimited })
    line ← read_line_to_buffer file tpl₁.block line_buff
    elim line [
      | none ↦ ok (base (record tpl₁ { size = 0 }), record { tablefile = some file; freed = true })
      | some (rest, block) ↦ do
        tpl₂ ← split_loop max_cols 0 0 0 (record tpl₁ { block = block })
        ok (base tpl₂, record s { tablefile = some rest })
    ]

  abbrev pub scan_source : Source
  scan_source = record { State = TextScan; get_tuple = scan_get_tuple }
