-- ===== src/Executor/Tuple.antt =====
-- src/executor/tuple.c: columns in a block of bytes, reached by offsets, and the numbers that a
-- column of text was cast to.
pub mod Strings
use squel.Common.{
  Bool, Bytes, List, Run, [], at, decode, defined, drop, false, fault, if◌then◌else◌, leb, length,
  ltb, ok, out_of_bounds, replicate, set, signed, signed_overflow, suc, true, zero, ℕ, ◌&&◌, ◌*◌,
  ◌+◌, ◌-◌, ◌==◌, ◌>>=◌, ◌>>◌, ◌^◌, ◌||◌, ◌∷◌,
}
use squel.Common.Int.{neg_part, pos, pos_part, sub_ℕ, ℤ}

-- `MAXCOLS`
abbrev pub max_cols : ℕ
max_cols = 100

pub data TupleType : Type 0 where
  tpl_tdb tpl_delimited : TupleType

-- A tuple of a table. `block` is what `data` points to; the arrays have `MAXCOLS` places.
pub record Tuple : Type 0 where
  pub block : Bytes
  pub size : ℕ
  pub long_count : ℕ
  pub casted : List Bool
  pub tdb_offsets : Bool
  pub offsets : List ℕ
  pub sizes : List ℕ
  pub longs : List ℤ
  pub type : TupleType

-- A tuple of type TPL_JOIN. `left` and `right` point to the left tuple of a join and to a slot of
-- its buffer; here they hold what the pointers lead to. What is changed through this tuple is
-- changed in the join: its next call, which gets the same tuple, takes the two tuples back.
pub record JoinTuple : Type 0 where
  pub size : ℕ
  pub left_column_count : ℕ
  pub left : Tuple
  pub right : Tuple

-- What a tuple pointer leads to. A join points to tuples of tables: the planner joins scans only.
pub data Row : Type 0 where
  base : Tuple → Row
  joined : JoinTuple → Row

abbrev pub row_size : Row → ℕ
row_size (base tpl) = tpl.size
row_size (joined tpl) = tpl.size

-- The bytes up to the first zero. A block that has none is read past its end in C.
unfoldable pub c_string : Bytes → Run Bytes
c_string [] = fault out_of_bounds
c_string (zero ∷ block) = ok []
c_string (suc c ∷ block) = do rest ← c_string block; ok (suc c ∷ rest)

-- `initTupleOfSize`; `calloc` clears the fields and the block, and 0 is TPL_TDB.
unfoldable pub init_tuple_of_size : ℕ → Tuple
init_tuple_of_size p_size = record {
  block = replicate p_size 0;
  size = p_size;
  long_count = 0;
  casted = replicate max_cols false;
  tdb_offsets = false;
  offsets = replicate max_cols 0;
  sizes = replicate max_cols 0;
  longs = replicate max_cols (pos 0);
  type = tpl_tdb;
}

-- `tpl->data + tpl->offsets[index]`, as the bytes from there on.
unfoldable pub column : Tuple → ℕ → Run Bytes
column tpl index = do
  offset ← at tpl.offsets index
  defined (leb offset (length tpl.block)) out_of_bounds
  ok (drop offset tpl.block)

-- `getTupleColByIndex`
unfoldable pub get_tuple_col_by_index : Row → ℕ → Run Bytes
unfolding column
get_tuple_col_by_index (base tpl) p_index = column tpl p_index
get_tuple_col_by_index (joined tpl) p_index =
    if ltb p_index tpl.left_column_count
    then column tpl.left p_index
    else column tpl.right (p_index - tpl.left_column_count)

-- A column read as a C string.
unfoldable pub column_string : Tuple → ℕ → Run Bytes
unfolding column c_string
column_string tpl index = do block ← column tpl index; c_string block

abbrev pub is_space : ℕ → Bool
is_space c = c == 32 || (leb 9 c && leb c 13)

abbrev pub is_digit : ℕ → Bool
is_digit c = leb b'0' c && leb c b'9'

unfoldable pub digits_value : ℕ → Bytes → ℕ
digits_value n [] = n
digits_value n (c ∷ s) =
    let rest = digits_value (n * 10 + (c - b'0')) s in if is_digit c then rest else n

abbrev pub negate : ℕ → ℤ
negate n = sub_ℕ 0 n

unfoldable pub signed_digits : Bytes → ℤ
unfolding digits_value
signed_digits [] = pos 0
signed_digits (c ∷ s) =
    if c == b'-'
    then negate (digits_value 0 s)
    else if c == b'+'
    then pos (digits_value 0 s)
    else pos (digits_value 0 (c ∷ s))

-- `atol` of the C library: blanks, a sign and decimal digits, as many as there are.
unfoldable pub atol : Bytes → ℤ
unfolding signed_digits
atol [] = pos 0
atol (c ∷ s) = let rest = atol s in if is_space c then rest else signed_digits (c ∷ s)

-- A `long` holds what a number of 64 bits can.
abbrev pub is_long : ℤ → Bool
is_long z = ltb (pos_part z) (2 ^ 63) && leb (neg_part z) (2 ^ 63)

-- `castColumnToLong` on a tuple of a table. The offset of the column now counts in `longs`.
unfoldable pub cast_column_to_long : Tuple → ℕ → Run Tuple
unfolding column_string atol
cast_column_to_long tpl col_idx = do
  text ← column_string tpl col_idx
  let col_number = atol text
  defined (is_long col_number) signed_overflow
  defined (ltb tpl.long_count max_cols) out_of_bounds
  ok (record tpl {
    long_count = tpl.long_count + 1;
    casted = set tpl.casted col_idx true;
    offsets = set tpl.offsets col_idx tpl.long_count;
    longs = set tpl.longs tpl.long_count col_number;
  })

-- `*(long*) (data + offset)`
unfoldable pub read_long : Bytes → Run ℤ
unfolding decode
read_long block = do w ← decode 8 block; ok (signed (2 ^ 63) w)

-- `getTupleLongColByIndex` on a tuple of a table, which it may cast.
unfoldable pub long_column : Tuple → ℕ → Run (ℤ × Tuple)
unfolding column read_long cast_column_to_long
long_column tpl index = elim tpl.type [
  | tpl_tdb ↦ do block ← column tpl index; number ← read_long block; ok (number, tpl)
  | tpl_delimited ↦ do
    done ← at tpl.casted index
    tpl' ← if done then ok tpl else cast_column_to_long tpl index
    place ← at tpl'.offsets index
    number ← at tpl'.longs place
    ok (number, tpl')
]

-- `getTupleLongColByIndex`. Through the tuple of a join, it casts one of the two that are pointed to.
unfoldable pub get_tuple_long_col_by_index : Row → ℕ → Run (ℤ × Row)
unfolding long_column
get_tuple_long_col_by_index (base tpl) index = do
  (number, tpl') ← long_column tpl index
  ok (number, base tpl')
get_tuple_long_col_by_index (joined tpl) index =
    if ltb index tpl.left_column_count
    then (do
      (number, left') ← long_column tpl.left index
      ok (number, joined (record tpl { left = left' })))
    else (do
      (number, right') ← long_column tpl.right (index - tpl.left_column_count)
      ok (number, joined (record tpl { right = right' })))

-- `isCasted`
unfoldable pub is_casted : Row → ℕ → Run Bool
is_casted (base tpl) index = at tpl.casted index
is_casted (joined tpl) index =
    if ltb index tpl.left_column_count
    then at tpl.left.casted index
    else at tpl.right.casted (index - tpl.left_column_count)

-- `isTupleEmpty`
unfoldable pub is_tuple_empty : Row → Bool
is_tuple_empty row = row_size row == 0

-- `markTupleAsEmpty`
unfoldable pub mark_tuple_as_empty : Row → Row
mark_tuple_as_empty (base tpl) = base (record tpl { size = 0 })
mark_tuple_as_empty (joined tpl) = joined (record tpl { size = 0 })

-- `resetTuple`
unfoldable pub reset_tuple : Tuple → Tuple
reset_tuple tpl = record tpl { long_count = 0; casted = replicate max_cols false }
