-- ===== src/Io/TextFile.antt =====
-- The lines of src/io/flatfile.c.
pub mod Lines
use squel.Common.{
  Bytes, Option, Run, [], at, defined, drop, fault, if◌then◌else◌, length, ltb, none, null_pointer,
  ok, out_of_bounds, replicate, require, set, some, suc, zero, ℕ, ◌++◌, ◌+◌, ◌-◌, ◌==◌, ◌>>=◌, ◌>>◌,
  ◌∷◌,
}
use squel.Config.{lf, line_buff}
use squel.Executor.Tuple.{c_string}

-- What `fgets` takes of a file: up to `room` characters, no further than the end of the line.
unfoldable pub take_line : ℕ → Bytes → Bytes × Bytes
take_line zero file = ([], file)
take_line (suc room) [] = ([], [])
take_line (suc room) (c ∷ file) =
    let (line, rest) = take_line room file in if c == lf then (c ∷ [], file) else (c ∷ line, rest)

-- `fgets(buff, buff_size, f)`, where `none` is the NULL at the end of the file.
unfoldable pub fgets : ℕ → Bytes → Option (Bytes × Bytes)
fgets buff_size [] = none
fgets buff_size (c ∷ file) = some (take_line (buff_size - 1) (c ∷ file))

-- `if (rtrn[len-1] == LF) rtrn[len-1] = '\0'`, where `len` is the length of the string in the buffer.
unfoldable pub remove_lf : Bytes → Run Bytes
remove_lf buff = do
  text ← c_string buff
  defined (ltb 0 (length text)) out_of_bounds
  last ← at text (length text - 1)
  ok (if last == lf then set buff (length text - 1) 0 else buff)

-- The buffer with a string at its start.
unfoldable pub store_string : Bytes → Bytes → Run Bytes
store_string text buff = do
  defined (ltb (length text) (length buff)) out_of_bounds
  ok (text ++ 0 ∷ drop (length text + 1) buff)

-- `readLineToBuffer`: the rest of the file and the buffer, or `none` for NULL.
unfoldable pub read_line_to_buffer : Bytes → Bytes → ℕ → Run (Option (Bytes × Bytes))
read_line_to_buffer file buff buff_size = elim (fgets buff_size file) [
  | none ↦ ok none
  | some (line, rest) ↦ do
    stored ← store_string line buff
    buff' ← remove_lf stored
    ok (some (rest, buff'))
]

-- `readLine`, which does not expect the end of the file. Its test of the length never holds: `fgets`
-- takes fewer characters than the buffer has.
unfoldable pub read_line : Bytes → Run (Bytes × Bytes)
read_line file = elim (fgets line_buff file) [
  | none ↦ fault null_pointer
  | some (line, rest) ↦ do
    stored ← store_string line (replicate line_buff 0)
    text ← c_string stored
    require (ltb (length text) line_buff)
    buff ← remove_lf stored
    text' ← c_string buff
    ok (text', rest)
]
