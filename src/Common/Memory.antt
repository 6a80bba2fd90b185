-- ===== src/Common/Memory.antt =====
-- Numbers in memory: little-endian bytes, and two's complement.
use native.Mathlib.Nat.{pow-suc}
use Prim.Native.Nat.{ℕ, zero, suc, ◌+◌, ◌-◌, ◌*◌, ◌/◌, ◌%◌, ◌^◌, ◌<◌}
use mathlib.Core.Path.{◌≡◌, ap}
use mathlib.Core.List.{[], ◌∷◌, ◌++◌}
use native.Mathlib.Omega.{arith}
use squel.Common.Lists.{length}
use squel.Common.Strings.{Bytes}
use squel.Common.Tests.{if◌then◌else◌, ltb}
use squel.Common.Int.{negsuc, pos, ℤ}
use squel.Common.Outcome.{Run, fault, ok, out_of_bounds, ◌>>=◌}

-- The number in the first `n` bytes.
unfoldable pub decode : ℕ → Bytes → Run ℕ
decode zero block = ok 0
decode (suc n) [] = fault out_of_bounds
decode (suc n) (c ∷ block) = do rest ← decode n block; ok (c + 256 * rest)

-- The first `n` bytes of a number.
unfoldable pub encode : ℕ → ℕ → Bytes
encode zero w = []
encode (suc n) w = w % 256 ∷ encode n (w / 256)

-- A two's complement pattern below `2 * half`.
abbrev pub signed : ℕ → ℕ → ℤ
signed half w = if ltb w half then pos w else negsuc (2 * half - 1 - w)

-- The 64 bits of a `long` as a `size_t`, and of a `size_t` as a `long`.
abbrev pub to_unsigned : ℤ → ℕ
to_unsigned (pos n) = n
to_unsigned (negsuc n) = 2 ^ 64 - 1 - n

abbrev pub to_signed : ℕ → ℤ
to_signed w = signed (2 ^ 63) w

pub decode-encode : (n w : ℕ) (rest : Bytes) → w < 256 ^ n → decode n (encode n w ++ rest) ≡ ok w
unfolding decode encode
decode-encode zero w rest h = ap ok (omega arith)
decode-encode (suc n) w rest h =
    let wide : w < 256 ^ n * 256 = rw (pow-suc 256 n) at h in
    rw (decode-encode n (w / 256) rest (omega arith)) (ap ok (omega arith))

pub length-encode : (n w : ℕ) → length (encode n w) ≡ n
unfolding encode
length-encode zero w = omega arith
length-encode (suc n) w = ap suc (length-encode n (w / 256))
