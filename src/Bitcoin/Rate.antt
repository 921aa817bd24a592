-- ===== src/Bitcoin/Rate.antt =====
-- wasm/txbuild.go: fee rates. A float64 is given by its 64 bits, and the arithmetic on it is the
-- parameter `Floats`.
use ferry_web.Prelude.{ℕ, Bool}
use ferry_web.Prelude.Int.{ℤ}

abbrev pub Float64 : Type 0
Float64 = ℕ

pub record Floats : Type 0 where
  pub of_int : ℕ → Float64
  pub add : Float64 → Float64 → Float64
  pub mul : Float64 → Float64 → Float64
  -- a < b, and math.IsInf with sign 0.
  pub lt : Float64 → Float64 → Bool
  pub is_inf : Float64 → Bool
  -- The conversion to int64, which rounds towards zero.
  pub to_int64 : Float64 → ℤ

-- The bits of 0, 0.5, 1, 2, 3, 10 and 10000.
abbrev pub zero_rate : Float64
zero_rate = 0

abbrev pub half : Float64
half = 0x3FE0000000000000

abbrev pub min_relay_fee_rate : Float64
min_relay_fee_rate = 0x3FF0000000000000

abbrev pub fallback_fee_rate : Float64
fallback_fee_rate = 0x4000000000000000

abbrev pub fee_spike_multiple : Float64
fee_spike_multiple = 0x4008000000000000

abbrev pub min_headroom_fee_rate : Float64
min_headroom_fee_rate = 0x4024000000000000

abbrev pub max_fee_rate : Float64
max_fee_rate = 0x40C3880000000000

unfoldable pub fee_for : Floats → Float64 → ℕ → ℤ
fee_for f rate vsize = f.to_int64 (f.add (f.mul rate (f.of_int vsize)) half)
