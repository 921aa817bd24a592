-- ===== src/Prelude/Duration.antt =====
-- package time: an instant is its nanoseconds since 1970, without a bound; a Duration is an int64 of
-- nanoseconds, and the difference of two instants stops at the ends of its range.
use ferry_web.Prelude.Int.{ℤ, pos, negsuc, pos_part, neg_part, sub_ℕ, ◌-ℤ◌, ltb_ℤ}
use ferry_web.Prelude.Int64.{half_range}
use ferry_web.Prelude.{ℕ, suc, ◌+◌, ◌-◌, ◌*◌, ◌<◌, ◌≡◌, arith, if◌then◌else◌}

-- time.Second.
abbrev pub second : ℕ
second = 1000000000

-- The product by a positive constant, without a bound.
unfoldable pub times : ℕ → ℤ → ℤ
times k (pos n) = pos (k * n)
times k (negsuc n) = sub_ℕ 0 (k * suc n)

pub times-second :
    (z : ℤ)
    → pos_part (times second z) + 1000000000 * neg_part z
      ≡ neg_part (times second z) + 1000000000 * pos_part z
unfolding times
times-second (pos n) = ground arith
times-second (negsuc n) = ground arith

-- time.Unix(t, 0).
abbrev pub unix : ℤ → ℤ
unix t = times second t

pub saturate : ℤ → ℤ
saturate z =
    if ltb_ℤ z (negsuc (half_range - 1))
    then negsuc (half_range - 1)
    else if ltb_ℤ (pos (half_range - 1)) z
    then pos (half_range - 1)
    else z

-- Time.Sub.
unfoldable pub sub_time : ℤ → ℤ → ℤ
unfolding saturate
sub_time a b = saturate (a -ℤ b)

pub sub_time_exact :
    (a b : ℤ)
    → (pos_part (a -ℤ b) < half_range) × (neg_part (a -ℤ b) < half_range)
    → sub_time a b ≡ a -ℤ b
unfolding sub_time saturate
sub_time_exact a b h = ground (arith, h)
