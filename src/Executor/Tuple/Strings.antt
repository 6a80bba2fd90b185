-- ===== src/Executor/Tuple/Strings.antt =====
-- The strings in a tuple's block, and the arrays of a tuple.
use squel.Common.{Bytes, [], arith, length, ok, refl, suc, zero, ◌++◌, ◌<◌, ◌∷◌, ◌≡◌}
use squel.Executor.Tuple.{Tuple, c_string, max_cols}

abbrev pub NoZero : Bytes → Type 0
NoZero [] = Unit
NoZero (c ∷ bytes) = (0 < c) × NoZero bytes

pub c_string-terminated : (name rest : Bytes) → NoZero name → c_string (name ++ 0 ∷ rest) ≡ ok name
unfolding c_string
c_string-terminated [] rest h = refl
c_string-terminated (zero ∷ name) rest h = absurd (omega (arith, h.0))
c_string-terminated (suc c ∷ name) rest h = rw (c_string-terminated name rest h.1)

pub NoZero-append : (a b : Bytes) → NoZero (a ++ b) → NoZero a × NoZero b
NoZero-append [] b h = (tt, h)
NoZero-append (c ∷ a) b h = let k = NoZero-append a b h.1 in ((h.0, k.0), k.1)

-- The arrays of a tuple have their `MAXCOLS` places.
pub record HasArrays (tpl : Tuple) : Type 0 where
  pub offsets : length tpl.offsets ≡ max_cols
  pub casted : length tpl.casted ≡ max_cols
