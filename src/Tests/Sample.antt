-- ===== src/Tests/Sample.antt =====
-- Tables as lists of tuples, each of which shows one number.
use squel.Common.{
  >>=-eq-ok, Bytes, List, Run, [], ap, arith, at, decode, false, map, ok, refl, replicate, signed,
  true, ℕ, ◌*◌, ◌++◌, ◌+◌, ◌-◌, ◌<◌, ◌>>=◌, ◌^◌, ◌∷◌, ◌≡◌,
}
use squel.Common.Int.{negsuc, pos, ℤ, ◌-ℤ◌}
use squel.Parser.Syntax.{dtype_long}
use squel.Planner.Plan.{FilterInfo, cmp_col_col, cmp_col_const}
use squel.Executor.Tuple.{
  Row, Tuple, base, column, get_tuple_long_col_by_index, is_tuple_empty, joined, long_column,
  mark_tuple_as_empty, tpl_tdb,
}
use squel.Operators.Join.Held.{}
use squel.Operators.Source.{OnBase, Source, Yields}
use squel.Operators.Filter.{
  compare_column_constant, compare_columns, compare_longs, compare_operands, evaluate_filter_op,
  first, is_int, long_operand, put_first, put_second, same, second, test_result, two,
}
use squel.Operators.Filter.Comparison.{Comparator, code_of, compares, decide_longs_exact}

-- A scan over a table in memory.
abbrev pub next_tuple : List Tuple → Row → Run (Row × List Tuple)
next_tuple [] row = ok (mark_tuple_as_empty row, [])
next_tuple (t ∷ ts) row = ok (base t, ts)

abbrev pub table_scan : Source
table_scan = record { State = List Tuple; get_tuple = next_tuple }

-- The eight bytes of a number between -128 and 127.
abbrev number_bytes : ℤ → Bytes
number_bytes (pos v) = v ∷ replicate 15 0
number_bytes (negsuc v) = (255 - v) ∷ (replicate 7 255 ++ replicate 8 0)

-- A tuple of a `.tdb` table with one column.
abbrev pub number_tuple : ℤ → Tuple
number_tuple v = record {
  block = number_bytes v;
  size = 8;
  long_count = 0;
  casted = replicate 4 false;
  tdb_offsets = true;
  offsets = replicate 4 0;
  sizes = replicate 4 8;
  longs = replicate 4 (pos 0);
  type = tpl_tdb;
}

abbrev pub IsSmall : ℤ → Type 0
IsSmall (pos v) = v < 128
IsSmall (negsuc v) = v < 128

-- The tuple's first column reads as the number.
unfoldable pub ShowsNumber : ℤ → Tuple → Type 0
ShowsNumber v tpl =
    (long_column tpl 0 ≡ ok (v, tpl)) × IsSmall v × (is_tuple_empty (base tpl) ≡ false)

small_positive : (v : ℕ) → v < 128 → signed (2 ^ 63) (v + 0) ≡ pos v
small_positive v h = ground arith

small_negative : (v : ℕ) → v < 128 → signed (2 ^ 63) (255 - v + 256 * (2 ^ 56 - 1)) ≡ negsuc v
small_negative v h = ground arith

pub number_tuple-shows : (v : ℤ) → IsSmall v → ShowsNumber v (number_tuple v)
unfolding ShowsNumber long_column is_tuple_empty at decode column
number_tuple-shows (pos v) h =
    (ap (λ z. ok (z, number_tuple (pos v))) (small_positive v h), h, refl)
number_tuple-shows (negsuc v) h =
    (ap (λ z. ok (z, number_tuple (negsuc v))) (small_negative v h), h, refl)

abbrev pub Small : List ℤ → Type 0
Small [] = Unit
Small (v ∷ vs) = IsSmall v × Small vs

-- Such a table yields its numbers.
pub table_scan-Yields :
    (Fits : Row → Type 0)
    → ((v : ℤ) → IsSmall v → Fits (base (number_tuple v)))
    → (vs : List ℤ) → Small vs
    → Yields table_scan Fits (λ v. OnBase (ShowsNumber v)) vs (map number_tuple vs)
unfolding mark_tuple_as_empty is_tuple_empty
table_scan-Yields Fits fits [] h (base tpl) f = (_, refl, refl)
table_scan-Yields Fits fits [] h (joined tpl) f = (_, refl, refl)
table_scan-Yields Fits fits (v ∷ vs) h row f =
    (_, refl, refl, fits v h.0, number_tuple-shows v h.0, table_scan-Yields Fits fits vs h.1)

-- `left.0 = right.0` and the like, on two columns of numbers.
abbrev pub first_columns : Comparator → FilterInfo
first_columns c = record {
  left_index = pos 0;
  bool_op = code_of c;
  right_index = pos 0;
  left_type = dtype_long;
  right_type = dtype_long;
  char_constants = [];
  num_constants = [];
  comp_type = cmp_col_col;
}

-- A comparison of the first column with a number.
abbrev pub column_with : Comparator → ℤ → FilterInfo
column_with c k = record {
  left_index = pos 0;
  bool_op = code_of c;
  right_index = negsuc 0;
  left_type = dtype_long;
  right_type = dtype_long;
  char_constants = [];
  num_constants = pos 0 ∷ pos 0 ∷ k ∷ [];
  comp_type = cmp_col_const;
}

difference_fits : (a b : ℤ) → IsSmall a → IsSmall b → is_int (a -ℤ b) ≡ true
unfolding ◌-ℤ◌
difference_fits a b h k = ground (arith, ◌-ℤ◌)

pub first_columns-decides :
    (c : Comparator) (a b : ℤ) (l r : Tuple)
    → ShowsNumber a l
    → ShowsNumber b r
    → evaluate_filter_op (first_columns c) (two (base l) (base r))
      ≡ ok (compares c a b, two (base l) (base r))
unfolding evaluate_filter_op compare_operands compare_columns long_operand
    get_tuple_long_col_by_index ShowsNumber first second put_first put_second
first_columns-decides c a b l r hl hr =
    let decided = decide_longs_exact c a b (difference_fits a b hl.1 hr.1) in
    let (z, cmp, test) = >>=-eq-ok (compare_longs a b) (test_result (code_of c)) decided in
    rw (hl.0, ◌>>=◌, hr.0, cmp, test)

pub column_with-decides :
    (c : Comparator) (a k : ℤ) (t : Tuple)
    → ShowsNumber a t
    → IsSmall k
    → evaluate_filter_op (column_with c k) (same (base t)) ≡ ok (compares c a k, same (base t))
unfolding evaluate_filter_op compare_operands compare_column_constant long_operand
    get_tuple_long_col_by_index ShowsNumber first put_first at
column_with-decides c a k t h small =
    let decided = decide_longs_exact c a k (difference_fits a k h.1 small) in
    let (z, cmp, test) = >>=-eq-ok (compare_longs a k) (test_result (code_of c)) decided in
    rw (h.0, ◌>>=◌, cmp, test)
