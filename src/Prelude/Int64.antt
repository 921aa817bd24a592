-- ===== src/Prelude/Int64.antt =====
-- Go's int64: an integer that wraps around at 2 ^ 63. A value of type int64 is a ℤ in range; each
-- sum, difference and product is reduced by `i64`.
use ferry_web.Prelude.Int.{ℤ, pos, negsuc, pos_part, neg_part, sub_ℕ, ◌+ℤ◌, ◌-ℤ◌}
use Prim.Native.Nat.{ℕ, zero, suc, ◌+◌, ◌-◌, ◌*◌, ◌%◌, ◌≤◌, ◌<◌}
use mathlib.Core.Path.{◌≡◌}
use mathlib.Core.Logic.{◌≢◌}
use native.Mathlib.Omega.{arith}

abbrev pub half_range : ℕ
half_range = 9223372036854775808

abbrev pub full_range : ℕ
full_range = 18446744073709551616

-- The value that 64 bits of two's complement keep of an integer.
pub i64 : ℤ → ℤ
i64 (pos n) = sub_ℕ ((n + half_range) % full_range) half_range
i64 (negsuc n) = sub_ℕ ((half_range + full_range - suc n % full_range) % full_range) half_range

abbrev pub Fits : ℤ → Type 0
Fits z = (pos_part z < half_range) × (neg_part z ≤ half_range)

pub i64_exact : (z : ℤ) → Fits z → i64 z ≡ z
unfolding i64
i64_exact (pos n) h = ground arith
i64_exact (negsuc n) h = ground arith

pub i64-Fits : (z : ℤ) → Fits (i64 z)
unfolding i64
i64-Fits (pos n) = ground arith
i64-Fits (negsuc n) = ground arith

unfoldable pub add64 : ℤ → ℤ → ℤ
unfolding i64
add64 a b = i64 (a +ℤ b)

unfoldable pub sub64 : ℤ → ℤ → ℤ
unfolding i64
sub64 a b = i64 (a -ℤ b)

-- The product by a positive constant, such as a number of nanoseconds.
unfoldable pub scale64 : ℕ → ℤ → ℤ
unfolding i64
scale64 k (pos n) = i64 (pos (k * n))
scale64 k (negsuc n) = i64 (sub_ℕ 0 (k * suc n))

-- Adding one changes a number, also where the sum wraps around.
pub add64_moves : (z : ℤ) → add64 z (pos 1) ≢ z
unfolding add64 i64 ◌+ℤ◌
add64_moves (pos n) h = ground arith
add64_moves (negsuc zero) h = ground arith
add64_moves (negsuc (suc n)) h = ground arith
