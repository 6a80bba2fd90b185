-- ===== src/Operators/Filter/Comparison.antt =====
-- The result of a comparison in filter.c against the order of the numbers that it compares.
use squel.Common.{Bool, Run, arith, not, ok, true, ℕ, ◌&&◌, ◌*◌, ◌<◌, ◌>>=◌, ◌^◌, ◌≡◌}
use squel.Common.Int.{ltb_ℤ, negsuc, pos, ℤ, ◌-ℤ◌, -ℤ_parts}
use squel.Operators.Filter.{compare_longs, is_int, test_result, to_int}
use squel.Executor.Tuple.{is_long}

-- The comparison operators of the language, and the codes that the planner gives them.
pub data Comparator : Type 0 where
  equal unequal less greater greater_equal less_equal : Comparator

abbrev pub code_of : Comparator → ℤ
code_of equal = negsuc 0
code_of unequal = negsuc 1
code_of less = negsuc 2
code_of greater = negsuc 3
code_of greater_equal = negsuc 4
code_of less_equal = negsuc 5

abbrev pub eq_ℤ : ℤ → ℤ → Bool
eq_ℤ a b = not (ltb_ℤ a b) && not (ltb_ℤ b a)

-- What the operators mean on numbers.
abbrev pub compares : Comparator → ℤ → ℤ → Bool
compares equal a b = eq_ℤ a b
compares unequal a b = not (eq_ℤ a b)
compares less a b = ltb_ℤ a b
compares greater a b = ltb_ℤ b a
compares greater_equal a b = not (ltb_ℤ a b)
compares less_equal a b = not (ltb_ℤ b a)

to_int_lem : (z : ℤ) → is_int z ≡ true → to_int z ≡ z
unfolding to_int
to_int_lem (pos n) h = ground arith
to_int_lem (negsuc n) h = ground arith

-- The difference tells the order.
test_result-difference :
    (c : Comparator) (a b : ℤ) → test_result (code_of c) (a -ℤ b) ≡ ok (compares c a b)
unfolding test_result
test_result-difference equal a b = ground (arith, -ℤ_parts a b)
test_result-difference c a b = ground (arith, -ℤ_parts a b)

abbrev pub decide_longs : Comparator → ℤ → ℤ → Run Bool
decide_longs c a b = compare_longs a b >>= test_result (code_of c)

is_long_of_int : (z : ℤ) → is_int z ≡ true → is_long z ≡ true
is_long_of_int z h = ground arith

-- Where the difference of two numbers fits an `int`, a comparison of them says what it means to.
pub decide_longs_exact :
    (c : Comparator) (a b : ℤ) → is_int (a -ℤ b) ≡ true → decide_longs c a b ≡ ok (compares c a b)
unfolding compare_longs
decide_longs_exact c a b h =
    rw (is_long_of_int (a -ℤ b) h, to_int_lem (a -ℤ b) h) (test_result-difference c a b)

-- Numbers whose difference is a multiple of 2 ^ 32 from 0 on, below 2 ^ 63, compare as equal.
pub decide_longs_wraps :
    (a b : ℤ) (k : ℕ) → a -ℤ b ≡ pos (k * 2 ^ 32) → k < 2 ^ 31 → decide_longs equal a b ≡ ok true
unfolding compare_longs test_result to_int
decide_longs_wraps a b k e h = rw e (ground arith)
