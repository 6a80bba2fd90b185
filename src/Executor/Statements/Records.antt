-- ===== src/Executor/Statements/Records.antt =====
-- The size of the records that an INSERT writes.
use squel.Common.{
  >>=-eq-ok, Bool, Bytes, Fault, List, Run, [], arith, defined, encode, false, leb, leb→le, length,
  length-append, length-encode, length-replicate, length-take, ok, out_of_bounds, refl, replicate,
  take, to_unsigned, true, ℕ, ◌++◌, ◌+◌, ◌>>◌, ◌∷◌, ◌≡◌, ◌≤◌,
}
use squel.Common.Int.{}
use squel.Config.{tdb_max_string_size, tdb_record_max_size}
use squel.Parser.Syntax.{Datatype, dtype_int, dtype_long, dtype_str, dtype_undefined}
use squel.Planner.Result.{ColumnMetadata}
use squel.Executor.Tuple.{Row, base, column, get_tuple_long_col_by_index, joined}
use squel.Executor.Statements.{column_record, record_loop, text_bytes}

-- What a column takes of a record.
abbrev pub record_width : Datatype → ℕ
record_width dtype_str = tdb_max_string_size
record_width _ = 8

abbrev pub record_widths : List ColumnMetadata → ℕ
record_widths [] = 0
record_widths (c ∷ columns) = record_width c.type + record_widths columns

defined-true :
    {A : Type 0} (b : Bool) (e : Fault) (rest : Run A) (a : A)
    → defined b e >> rest ≡ ok a
    → (b ≡ true) × (rest ≡ ok a)
defined-true true e rest a h = (refl, h)
defined-true false e rest a h = cc

text_bytes-length :
    (row : Row) (i : ℕ) (bytes : Bytes)
    → text_bytes row i ≡ ok bytes
    → length bytes ≡ tdb_max_string_size
unfolding text_bytes
text_bytes-length (base tpl) i bytes e =
    let (block, run, e') = >>=-eq-ok (column tpl i) _ e in
    let (wide, e'') =
      defined-true (leb tdb_max_string_size (length block)) out_of_bounds
        (ok (take tdb_max_string_size block)) bytes e' in
    let same : take tdb_max_string_size block ≡ bytes = cc in
    rw (← same)
      (length-take tdb_max_string_size block (leb→le tdb_max_string_size (length block) wide))
text_bytes-length (joined tpl) i bytes e =
    let same : replicate tdb_max_string_size 0 ≡ bytes = cc in
    rw (← same) (length-replicate {A = ℕ} tdb_max_string_size 0)

column_record-length :
    (row row' : Row) (i : ℕ) (type : Datatype) (bytes : Bytes)
    → column_record row i type ≡ ok (bytes, row')
    → length bytes ≡ record_width type
unfolding column_record
column_record-length row row' i dtype_long bytes e =
    let ((num, row₁), run, e') = >>=-eq-ok (get_tuple_long_col_by_index row i) _ e in
    let same : encode 8 (to_unsigned num) ≡ bytes = cc in
    rw (← same) (length-encode 8 (to_unsigned num))
column_record-length row row' i dtype_str bytes e =
    let (text, run, e') = >>=-eq-ok (text_bytes row i) _ e in
    let same : text ≡ bytes = cc in rw (← same) (text_bytes-length row i text run)
column_record-length row row' i dtype_int bytes e = cc
column_record-length row row' i dtype_undefined bytes e = cc

-- If an INSERT makes a record of a tuple, it takes eight bytes for each column of numbers and fifty
-- for each column of texts, whatever length the table declares, behind what was in the buffer, which
-- it does not leave.
pub record_loop-length :
    (i : ℕ) (columns : List ColumnMetadata) (row row' : Row) (before bytes : Bytes)
    → length before ≤ tdb_record_max_size
    → record_loop i columns row before ≡ ok (bytes, row')
    → (length bytes ≡ length before + record_widths columns) × (length bytes ≤ tdb_record_max_size)
unfolding record_loop
record_loop-length i [] row row' before bytes h e =
    let same : before ≡ bytes = cc in (rw (← same) (omega arith), rw (← same) h)
record_loop-length i (c ∷ columns) row row' before bytes h e =
    let ((chunk, row₁), run, e') = >>=-eq-ok (column_record row i c.type) _ e in
    let (room, e'') =
      defined-true (leb (length before + length chunk) tdb_record_max_size) out_of_bounds
        (record_loop (i + 1) columns row₁ (before ++ chunk)) (bytes, row') e' in
    let fits = leb→le (length before + length chunk) tdb_record_max_size room in
    let width = column_record-length row row₁ i c.type chunk run in
    let (size, bound) =
      record_loop-length (i + 1) columns row₁ row' (before ++ chunk) bytes
        (omega (arith, fits, length-append before chunk)) e'' in
    (omega (arith, size, width, length-append before chunk), bound)
