-- ===== src/Shell/Numbers.antt =====
-- What is printed of a number is read back as that number.
use native.Mathlib.Nat.{pow-suc}
use squel.Common.{
  Bool-cases, Bytes, Run, [], ap, arith, at, at-get_or, false, get_or-set_self, if◌then◌else◌, inl,
  inr, length, length-set, le→leb, ltb, ltb→lt, lt→ltb, ok, refl, set, suc, true, zero, ℕ, ◌%◌, ◌*◌,
  ◌++◌, ◌+◌, ◌-◌, ◌/◌, ◌<◌, ◌>>=◌, ◌^◌, ◌∙◌, ◌∷◌, ◌≡◌,
}
use squel.Common.Int.{negsuc, pos, ℤ}
use squel.Executor.Tuple.{
  Row, Tuple, TupleType, atol, cast_column_to_long, column, column_string, digits_value,
  get_tuple_long_col_by_index, is_digit, is_long, long_column, max_cols, read_long, signed_digits,
  tpl_delimited, tpl_tdb,
}
use squel.Parser.Syntax.{dtype_long}
use squel.Shell.Print.{decimal, long_text, tuple_col_value_to_char}

abbrev AllDigits : Bytes → Type 0
AllDigits [] = Unit
AllDigits (c ∷ s) = (is_digit c ≡ true) × AllDigits s

AllDigits-append : (s : Bytes) (d : ℕ) → AllDigits s → is_digit d ≡ true → AllDigits (s ++ d ∷ [])
AllDigits-append [] d h e = (e, tt)
AllDigits-append (c ∷ s) d h e = (h.0, AllDigits-append s d h.1 e)

last_digit : (w : ℕ) → is_digit (b'0' + w % 10) ≡ true
last_digit w =
    rw (le→leb b'0' (b'0' + w % 10) (omega arith), le→leb (b'0' + w % 10) b'9' (omega arith)) refl

decimal-AllDigits : (n w : ℕ) → AllDigits (decimal n w)
unfolding decimal
decimal-AllDigits zero w = tt
decimal-AllDigits (suc n) w = elim (Bool-cases (ltb w 10)) [
  | inl e ↦ rw e (last_digit w, tt)
  | inr e ↦ rw e (
      AllDigits-append (decimal n (w / 10)) (b'0' + w % 10) (decimal-AllDigits n (w / 10))
        (last_digit w))
]

digits_value-append :
    (acc : ℕ) (s : Bytes) (d : ℕ)
    → AllDigits s
    → is_digit d ≡ true
    → digits_value acc (s ++ d ∷ []) ≡ digits_value acc s * 10 + (d - b'0')
unfolding digits_value
digits_value-append acc [] d h e = rw e refl
digits_value-append acc (c ∷ s) d h e =
    rw (h.0, digits_value-append (acc * 10 + (c - b'0')) s d h.1 e) refl

digits_value-decimal : (n w : ℕ) → w < 10 ^ n → digits_value 0 (decimal n w) ≡ w
unfolding decimal digits_value
digits_value-decimal zero w h = omega arith
digits_value-decimal (suc n) w h = elim (Bool-cases (ltb w 10)) [
  | inl e ↦
      let small = ltb→lt w 10 e in
      rw e (digits_value-append 0 [] (b'0' + w % 10) tt (last_digit w) ∙ omega (arith, small))
  | inr e ↦
      let wide : w < 10 ^ n * 10 = rw (pow-suc 10 n) at h in
      let front = digits_value-decimal n (w / 10) (omega (arith, wide)) in
      let all = decimal-AllDigits n (w / 10) in
      rw e (
        digits_value-append 0 (decimal n (w / 10)) (b'0' + w % 10) all (last_digit w)
        ∙ omega (arith, front))
]

-- A number starts with a digit.
decimal-cons : (n w : ℕ) → (c : ℕ) × (s : Bytes) × (decimal (suc n) w ≡ c ∷ s) × (is_digit c ≡ true)
unfolding decimal
decimal-cons n w = elim (Bool-cases (ltb w 10)) [
  | inl e ↦ (b'0' + w % 10, [], rw e refl, last_digit w)
  | inr e ↦ starts (decimal n (w / 10)) (decimal-AllDigits n (w / 10)) e
]
  where
    starts :
        (front : Bytes)
        → AllDigits front
        → ltb w 10 ≡ false
        → (c : ℕ) × (s : Bytes) × ((if ltb w 10 then [] else front) ++ (b'0' + w % 10) ∷ [] ≡ c ∷ s)
          × (is_digit c ≡ true)
    starts [] h e = (b'0' + w % 10, [], rw e refl, last_digit w)
    starts (c ∷ front) h e = (c, front ++ (b'0' + w % 10) ∷ [], rw e refl, h.0)

atol-digits : (c : ℕ) (s : Bytes) → is_digit c ≡ true → atol (c ∷ s) ≡ pos (digits_value 0 (c ∷ s))
unfolding atol signed_digits
atol-digits c s e = ground arith

-- The text of a number is read as the number.
atol-decimal : (n w : ℕ) → w < 10 ^ suc n → atol (decimal (suc n) w) ≡ pos w
atol-decimal n w h =
    let (c, s, same, digit) = decimal-cons n w in
    let value : digits_value 0 (c ∷ s) ≡ w = rw same at (digits_value-decimal (suc n) w h) in
    rw same (atol-digits c s digit ∙ ap pos value)

-- The text of a `long` is read as that `long`.
atol-long_text : (z : ℤ) → is_long z ≡ true → atol (long_text z) ≡ z
unfolding long_text atol signed_digits
atol-long_text (pos n) h = let small : n < 10 ^ 19 = ground arith in atol-decimal 18 n small
atol-long_text (negsuc n) h =
    let small : suc n < 10 ^ 19 = ground arith in
    let value = digits_value-decimal 19 (suc n) small in rw value (ground arith)

-- A column with the text of a `long` is cast to that `long`, where there is room for one more.
cast_column-text :
    (tpl : Tuple) (j : ℕ) (z : ℤ)
    → is_long z ≡ true
    → column_string tpl j ≡ ok (long_text z)
    → tpl.long_count < max_cols
    → cast_column_to_long tpl j
      ≡ ok (record tpl {
        long_count = tpl.long_count + 1;
        casted = set tpl.casted j true;
        offsets = set tpl.offsets j tpl.long_count;
        longs = set tpl.longs tpl.long_count z;
      })
unfolding cast_column_to_long
cast_column-text tpl j z fits text room =
    rw (text, ◌>>=◌, atol-long_text z fits, fits, lt→ltb tpl.long_count max_cols room) refl

-- `long_column` of a tuple of a text file.
abbrev read_cast : Tuple → ℕ → Run (ℤ × Tuple)
read_cast tpl j = do
  done ← at tpl.casted j
  tpl' ← if done then ok tpl else cast_column_to_long tpl j
  place ← at tpl'.offsets j
  w ← at tpl'.longs place
  ok (w, tpl')

long_column-delimited :
    (tpl : Tuple) (j : ℕ) → tpl.type ≡ tpl_delimited → long_column tpl j ≡ read_cast tpl j
unfolding long_column
long_column-delimited tpl j e =
    ap
      (λ (t : TupleType). elim t as (λ t. Run (ℤ × Tuple)) [
        | tpl_tdb ↦ do block ← column tpl j; w ← read_long block; ok (w, tpl)
        | tpl_delimited ↦ read_cast tpl j
      ])
      e

-- If a column of a tuple reads as a `long`, and what is printed of that column is the string in a
-- column of a tuple of a text file, which is not cast and has room for one more number: that column
-- reads as the same number.
pub long_column-printed :
    (row row' printed_row : Row) (i : ℕ) (z : ℤ) (text : Bytes) (tpl : Tuple) (j : ℕ)
    → get_tuple_long_col_by_index row i ≡ ok (z, row')
    → is_long z ≡ true
    → tuple_col_value_to_char row i dtype_long ≡ ok (text, printed_row)
    → tpl.type ≡ tpl_delimited
    → at tpl.casted j ≡ ok false
    → column_string tpl j ≡ ok text
    → j < length tpl.offsets
    → tpl.long_count < max_cols
    → tpl.long_count < length tpl.longs
    → (tpl' : Tuple) × (long_column tpl j ≡ ok (z, tpl'))
unfolding tuple_col_value_to_char
long_column-printed row row' printed_row i z text tpl j reads fits printed type uncast holds inside
      room longs =
    let same : ok (long_text z, row') ≡ ok (text, printed_row) = rw (reads, ◌>>=◌) at printed in
    let same' : text ≡ long_text z = cc in
    let cast = cast_column-text tpl j z fits (holds ∙ ap ok same') room in
    let tpl' : Tuple = record tpl {
      long_count = tpl.long_count + 1;
      casted = set tpl.casted j true;
      offsets = set tpl.offsets j tpl.long_count;
      longs = set tpl.longs tpl.long_count z;
    } in
    let place : at tpl'.offsets j ≡ ok tpl.long_count =
      at-get_or tpl'.offsets j 0 (omega (arith, inside, length-set tpl.offsets j tpl.long_count))
      ∙ ap ok (get_or-set_self tpl.offsets j tpl.long_count 0 inside) in
    let stored : at tpl'.longs tpl.long_count ≡ ok z =
      at-get_or tpl'.longs tpl.long_count (pos 0)
        (omega (arith, longs, length-set tpl.longs tpl.long_count z))
      ∙ ap ok (get_or-set_self tpl.longs tpl.long_count z (pos 0) longs) in
    (tpl', long_column-delimited tpl j type ∙ rw (uncast, ◌>>=◌, cast, place, stored) refl)
