-- ===== src/Manager/Window.antt =====
-- wasm/manager.go: the window in which planZenonLeg puts the end of the Zenon leg.
use ferry_web.Manager.Legs.{plan_zenon_leg}
use ferry_web.Manager.Hours.{Ordinary, one_sided}
use ferry_web.Prelude.Duration.{second, times, times-second, unix, sub_time, sub_time_exact}
use ferry_web.Swap.Record.{Swap}
use ferry_web.Swap.Roles.{zenon_leg_is_initiators}
use ferry_web.Prelude.{
  ◌*◌, ◌/◌, ◌≡◌, refl, ap, ◌∙◌, ◌⊎◌, inl, inr, not, ◌&&◌, arith, if◌then◌else◌, Bool-cases,
  is_empty,
}
use ferry_web.Prelude.Int.{
  ℤ, pos, negsuc, ◌+ℤ◌, ◌-ℤ◌, ◌≤ℤ◌, ◌<ℤ◌, ltb_ℤ, eqb_ℤ, quot, +ℤ_parts, eq_of_parts, ltb_ℤ_false,
  int_laws,
}

quot_second :
    (z : ℤ)
    → pos 7200 ≤ℤ quot z second
    → (times second (quot z second) ≤ℤ z) × (z <ℤ times second (quot z second) +ℤ pos second)
unfolding quot times
quot_second (pos n) h = ground (arith, +ℤ_parts (pos (1000000000 * (n / 1000000000))) (pos second))
quot_second (negsuc n) h = absurd (ground arith)

-- The instant that a plan aims at.
target_of : Swap → ℤ
unfolding zenon_leg_is_initiators
target_of s =
    if zenon_leg_is_initiators s
    then unix s.lock_time +ℤ pos 86400000000000
    else unix s.lock_time -ℤ pos 86400000000000

planned :
    (s : Swap) (now : ℤ)
    → (plan_zenon_leg s now ≡ s)
      ⊎ (((plan_zenon_leg s now).zenon.expiration_seconds
            ≡ quot (sub_time (target_of s) now) second)
          × (pos 7200 ≤ℤ quot (sub_time (target_of s) now) second))
unfolding plan_zenon_leg target_of
planned s now = elim (Bool-cases (eqb_ℤ s.lock_time (pos 0))) [
  | inl e ↦ inl (rw e refl)
  | inr e ↦ elim (Bool-cases (not (is_empty s.zenon.htlc_id) && s.zenon.verified)) [
    | inl v ↦ inl (rw (e, v) refl)
    | inr v ↦ elim (Bool-cases (ltb_ℤ (quot (sub_time (target_of s) now) second) (pos 7200))) [
      | inl l ↦ inl (rw (e, v, l) refl)
      | inr l ↦
          inr (
            rw (e, v, l)
              (refl, ltb_ℤ_false (quot (sub_time (target_of s) now) second) (pos 7200) l))
    ]
  ]
]

target_fits :
    (s : Swap) (now : ℤ)
    → Ordinary (unix s.lock_time -ℤ now)
    → sub_time (target_of s) now ≡ target_of s -ℤ now
unfolding target_of
target_fits s now near = elim (Bool-cases (zenon_leg_is_initiators s)) [
  | inl i ↦ rw i (
      sub_time_exact (unix s.lock_time +ℤ pos 86400000000000) now (
        omega (
          int_laws,
          one_sided (unix s.lock_time -ℤ now),
          one_sided ((unix s.lock_time +ℤ pos 86400000000000) -ℤ now),
        )))
  | inr i ↦ rw i (
      sub_time_exact (unix s.lock_time -ℤ pos 86400000000000) now (
        omega (
          int_laws,
          one_sided (unix s.lock_time -ℤ now),
          one_sided ((unix s.lock_time -ℤ pos 86400000000000) -ℤ now),
        )))
]

target_is :
    (s : Swap)
    → target_of s
      ≡ unix
          (if zenon_leg_is_initiators s then s.lock_time +ℤ pos 86400 else s.lock_time -ℤ pos 86400)
unfolding target_of
target_is s = elim (Bool-cases (zenon_leg_is_initiators s)) [
  | inl i ↦ rw i (
      eq_of_parts _ _
        (omega (int_laws, times-second s.lock_time, times-second (s.lock_time +ℤ pos 86400))))
  | inr i ↦ rw i (
      eq_of_parts _ _
        (omega (int_laws, times-second s.lock_time, times-second (s.lock_time -ℤ pos 86400))))
]

window :
    (t now e : ℤ)
    → e ≡ quot (t -ℤ now) second
    → pos 7200 ≤ℤ e
    → ((now +ℤ unix e) ≤ℤ t) × (t <ℤ (now +ℤ unix (e +ℤ pos 1)))
window t now e is_e enough =
    let (low, high) = quot_second (t -ℤ now) (rw is_e at enough) in
    let low' : unix e ≤ℤ (t -ℤ now) = rw is_e low in
    let high' : (t -ℤ now) <ℤ unix e +ℤ pos second = rw is_e high in
    (omega (int_laws, low'), omega (int_laws, high', times-second e, times-second (e +ℤ pos 1)))

-- Where a plan is made, it leaves at least two hours; on the initiator's leg it ends within the second
-- before 24 hours after the Bitcoin leg, and on the participant's it ends within the second before 24 hours
-- ahead of the Bitcoin leg. The Bitcoin leg is less than 2 ^ 62 nanoseconds (146 years) away.
pub plan_zenon_leg_window :
    (s : Swap) (now : ℤ)
    → Ordinary (unix s.lock_time -ℤ now)
    → (plan_zenon_leg s now ≡ s)
      ⊎ ((pos 7200 ≤ℤ (plan_zenon_leg s now).zenon.expiration_seconds)
          × ((target : ℤ) × (target
                ≡ unix (
                    if zenon_leg_is_initiators s
                    then s.lock_time +ℤ pos 86400
                    else s.lock_time -ℤ pos 86400))
              × ((now +ℤ unix (plan_zenon_leg s now).zenon.expiration_seconds) ≤ℤ target)
              × (target
                  <ℤ (now +ℤ unix ((plan_zenon_leg s now).zenon.expiration_seconds +ℤ pos 1)))))
plan_zenon_leg_window s now near = elim (planned s now) [
  | inl same ↦ inl same
  | inr (is_e, enough) ↦
      let e = (plan_zenon_leg s now).zenon.expiration_seconds in
      let enough' : pos 7200 ≤ℤ e = rw is_e enough in
      let exact = target_fits s now near in
      let (low, high) = window (target_of s) now e (is_e ∙ ap (λ x. quot x second) exact) enough' in
      inr (enough', (target_of s, target_is s, low, high))
]
