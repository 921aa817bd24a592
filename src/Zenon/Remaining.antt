-- ===== src/Zenon/Remaining.antt =====
-- wasm/znn/client.go: the time that a verified entry leaves.
use ferry_web.Prelude.Bytes.{Bytes}
use ferry_web.Prelude.Duration.{second, times}
use ferry_web.Zenon.Entry.{HtlcInfo}
use ferry_web.Zenon.Verify
use ferry_web.Zenon.Verify.{VerifyParams, time_left, verify}
use ferry_web.Zenon.Sound.{verify-Matches}
use ferry_web.Prelude.{ℕ, suc, ◌*◌, ◌≡◌, ap, ◌∙◌, Option, arith}
use ferry_web.Prelude.Int.{ℤ, pos, negsuc, sub_ℕ, ◌-ℤ◌, ◌≤ℤ◌, ◌<ℤ◌}
use ferry_web.Prelude.Int64.{Fits, i64_exact, sub64, scale64}
use ferry_web.Prelude.Text.{Text}

scale64_exact : (k : ℕ) (z : ℤ) → Fits (times k z) → scale64 k z ≡ times k z
unfolding scale64 times
scale64_exact k (pos n) h = i64_exact (pos (k * n)) h
scale64_exact k (negsuc n) h = i64_exact (sub_ℕ 0 (k * suc n)) h

module _ (base64 : Text → Option Bytes) where
  time_left_exact :
      (info : HtlcInfo) (want : VerifyParams)
      → Fits (info.expiration_time -ℤ want.now)
      → Fits (times second (info.expiration_time -ℤ want.now))
      → time_left base64 info want ≡ times second (info.expiration_time -ℤ want.now)
  unfolding time_left sub64
  time_left_exact info want small near =
      ap (scale64 second) (i64_exact (info.expiration_time -ℤ want.now) small)
      ∙ scale64_exact second (info.expiration_time -ℤ want.now) near

  -- A verified entry expires no earlier than the asked time after the chain's clock, where a clock and a
  -- time are given and the expiry is within the 292 years that a duration can hold.
  pub verify-remaining :
      (info : HtlcInfo) (want : VerifyParams)
      → verify base64 info want ≡ Verify.verified
      → pos 0 <ℤ want.now
      → pos 0 <ℤ want.min_remaining
      → Fits (info.expiration_time -ℤ want.now)
      → Fits (times second (info.expiration_time -ℤ want.now))
      → want.min_remaining ≤ℤ times second (info.expiration_time -ℤ want.now)
  verify-remaining info want h clock asked small near =
      let m = (verify-Matches base64 info want).0 h in
      rw⁻¹ (time_left_exact info want small near) (ground (arith, m.remaining))
