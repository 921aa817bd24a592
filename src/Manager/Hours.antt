-- ===== src/Manager/Hours.antt =====
-- wasm/manager.go: the whole hours that wholeHours advises.
use ferry_web.Manager.Legs.{whole_hours}
use ferry_web.Prelude.Duration.{times}
use ferry_web.Prelude.{◌+◌, ◌*◌, ◌≤◌, ◌<◌, ◌≡◌, refl, ap, ◌∙◌, ◌⊎◌, inl, inr, true, false, arith}
use ferry_web.Prelude.Int.{ℤ, pos, negsuc, pos_part, neg_part, ◌+ℤ◌, ◌-ℤ◌, ◌≤ℤ◌, quot, int_laws}
use ferry_web.Prelude.Int64.{Fits, i64_exact, add64, sub64}

-- A number of seconds far from the ends of int64.
abbrev pub Ordinary : ℤ → Type 0
Ordinary z = (pos_part z < 4611686018427387904) × (neg_part z < 4611686018427387904)

add64_exact : (a b : ℤ) → Fits (a +ℤ b) → add64 a b ≡ a +ℤ b
unfolding add64
add64_exact a b h = i64_exact (a +ℤ b) h

sub64_exact : (a b : ℤ) → Fits (a -ℤ b) → sub64 a b ≡ a -ℤ b
unfolding sub64
sub64_exact a b h = i64_exact (a -ℤ b) h

quot_bounds :
    (z : ℤ)
    → (3600 * pos_part (quot z 3600) ≤ pos_part z)
      × (pos_part z < 3600 * pos_part (quot z 3600) + 3600)
      × (3600 * neg_part (quot z 3600) ≤ neg_part z)
      × (neg_part z < 3600 * neg_part (quot z 3600) + 3600)
unfolding quot
quot_bounds (pos n) = ground arith
quot_bounds (negsuc n) = ground arith

times_hour :
    (z : ℤ)
    → pos_part (times 3600 z) + 3600 * neg_part z ≡ neg_part (times 3600 z) + 3600 * pos_part z
unfolding times
times_hour (pos n) = ground arith
times_hour (negsuc n) = ground arith

pub one_sided : (z : ℤ) → (pos_part z ≡ 0) ⊎ (neg_part z ≡ 0)
one_sided (pos n) = inr refl
one_sided (negsuc n) = inl refl

at_least_earliest :
    (secs btc_secs : ℤ)
    → quot (add64 (add64 btc_secs (pos 7200)) (pos 3599)) 3600 ≤ℤ whole_hours secs btc_secs true
unfolding whole_hours
at_least_earliest secs btc_secs = ground arith

at_most_latest :
    (secs btc_secs : ℤ)
    → (whole_hours secs btc_secs false ≡ pos 0)
      ⊎ ((pos 1 ≤ℤ whole_hours secs btc_secs false)
          × (whole_hours secs btc_secs false ≤ℤ quot (sub64 btc_secs (pos 7200)) 3600))
unfolding whole_hours
at_most_latest secs btc_secs = ground arith

earliest_keeps :
    (b : ℤ)
    → Ordinary b
    → (b +ℤ pos 7200) ≤ℤ times 3600 (quot (add64 (add64 b (pos 7200)) (pos 3599)) 3600)
earliest_keeps b small =
    let inner = add64_exact b (pos 7200) (omega (int_laws, one_sided (b +ℤ pos 7200))) in
    let outer : add64 (add64 b (pos 7200)) (pos 3599) ≡ (b +ℤ pos 7200) +ℤ pos 3599 =
      ap (λ x. add64 x (pos 3599)) inner
      ∙ add64_exact (b +ℤ pos 7200) (pos 3599)
          (omega (int_laws, one_sided (b +ℤ pos 7200), one_sided ((b +ℤ pos 7200) +ℤ pos 3599))) in
    let e = quot ((b +ℤ pos 7200) +ℤ pos 3599) 3600 in
    rw outer (
      omega (
        int_laws,
        times_hour e,
        one_sided (b +ℤ pos 7200),
        quot_bounds ((b +ℤ pos 7200) +ℤ pos 3599),
        one_sided ((b +ℤ pos 7200) +ℤ pos 3599),
      ))

latest_keeps :
    (b : ℤ) (h : ℤ)
    → Ordinary b
    → pos 1 ≤ℤ h
    → h ≤ℤ quot (sub64 b (pos 7200)) 3600
    → times 3600 h ≤ℤ (b -ℤ pos 7200)
latest_keeps b h small one k =
    let exact = sub64_exact b (pos 7200) (omega (int_laws, one_sided (b -ℤ pos 7200))) in
    let k' : h ≤ℤ quot (b -ℤ pos 7200) 3600 = rw exact at k in
    omega
      (int_laws, times_hour h, one_sided h, quot_bounds (b -ℤ pos 7200), one_sided (b -ℤ pos 7200))

-- The whole hours that are advised keep the gap: on the initiator's leg they are at least the gap after
-- the Bitcoin leg, on the participant's they are none at all, or at least one hour and at least the gap
-- before the Bitcoin leg. The time to the Bitcoin leg is less than 2 ^ 62 seconds.
pub whole_hours_keep_gap :
    (secs btc_secs : ℤ)
    → Ordinary btc_secs
    → ((btc_secs +ℤ pos 7200) ≤ℤ times 3600 (whole_hours secs btc_secs true))
      × ((whole_hours secs btc_secs false ≡ pos 0)
          ⊎ ((pos 1 ≤ℤ whole_hours secs btc_secs false)
              × (times 3600 (whole_hours secs btc_secs false) ≤ℤ (btc_secs -ℤ pos 7200))))
whole_hours_keep_gap secs btc_secs b =
    let up = at_least_earliest secs btc_secs in
    let first = earliest_keeps btc_secs b in
    (
      omega (
        arith,
        up,
        first,
        times_hour (whole_hours secs btc_secs true),
        times_hour (quot (add64 (add64 btc_secs (pos 7200)) (pos 3599)) 3600),
      ),
      elim (at_most_latest secs btc_secs) [
        | inl nothing ↦ inl nothing
        | inr (one, down) ↦
            inr (one, latest_keeps btc_secs (whole_hours secs btc_secs false) b one down)
      ],
    )
