-- ===== src/Manager/Legs.antt =====
-- wasm/manager.go: planZenonLeg, wholeHours and auditLegOrdering, which keep the initiator's leg last.
use ferry_web.Prelude.Duration.{second, times, unix, sub_time}
use ferry_web.Swap.Record.{Swap, ordering_unchecked, log}
use ferry_web.Swap.Roles.{zenon_leg_is_initiators, bitcoin_leg_is_initiators}
use ferry_web.Swap.Commit.{min_leg_gap, min_leg_remaining}
use ferry_web.Swap.Build.{too_little_left, no_room_under, expires_after, Call, done, fails}
use ferry_web.Prelude.{ℕ, ◌+◌, ◌-◌, ◌*◌, Bool, not, ◌&&◌, ◌||◌, if◌then◌else◌, is_empty}
use ferry_web.Prelude.Int.{ℤ, pos, ◌+ℤ◌, ◌-ℤ◌, ltb_ℤ, eqb_ℤ, quot}
use ferry_web.Prelude.Int64.{add64, sub64}

abbrev pub initiator_lock_hours : ℕ
initiator_lock_hours = 48

abbrev pub participant_lock_hours : ℕ
participant_lock_hours = 24

-- defaultLegGap, in seconds.
abbrev pub default_leg_gap : ℕ
default_leg_gap = (initiator_lock_hours - participant_lock_hours) * 3600

unfoldable pub btc_leg_hours : Swap → ℕ
unfolding bitcoin_leg_is_initiators
btc_leg_hours s =
    if bitcoin_leg_is_initiators s then initiator_lock_hours else participant_lock_hours

unfoldable pub whole_hours : ℤ → ℤ → Bool → ℤ
unfolding add64 sub64 quot
whole_hours secs btc_secs is_initiator_leg =
    let hours = quot (add64 secs (pos 1800)) 3600 in
    let earliest = quot (add64 (add64 btc_secs (pos min_leg_gap)) (pos 3599)) 3600 in
    let latest = quot (sub64 btc_secs (pos min_leg_gap)) 3600 in
    let capped = if ltb_ℤ latest hours then latest else hours in
    if is_initiator_leg
    then if ltb_ℤ hours earliest then earliest else hours
    else if ltb_ℤ capped (pos 1)
    then pos 0
    else capped

-- At the instant `now`, in nanoseconds.
unfoldable pub plan_zenon_leg : Swap → ℤ → Swap
unfolding times quot sub_time whole_hours zenon_leg_is_initiators
plan_zenon_leg s now =
    let btc = unix s.lock_time in
    let gap = pos (default_leg_gap * second) in
    let target = if zenon_leg_is_initiators s then btc +ℤ gap else btc -ℤ gap in
    let secs = quot (sub_time target now) second in
    let btc_secs = quot (sub_time btc now) second in
    let z = s.zenon in
    if eqb_ℤ s.lock_time (pos 0)
    then s
    else if not (is_empty z.htlc_id) && z.verified
    then s
    else if ltb_ℤ secs (pos min_leg_remaining)
    then s
    else record s {
      zenon = record z {
        expiration_seconds = secs;
        expiration_hours = whole_hours secs btc_secs (zenon_leg_is_initiators s);
      };
    }

-- `remaining` is a time.Duration.
unfoldable pub audit_leg_ordering : ℤ → Swap → ℤ → ℤ → Call Swap
unfolding log add64 bitcoin_leg_is_initiators
audit_leg_ordering now s btc_lock_time remaining =
    let earliest = add64 btc_lock_time (pos min_leg_gap) in
    if ltb_ℤ remaining (pos (min_leg_remaining * second))
    then fails too_little_left
    else if bitcoin_leg_is_initiators s
    then if ltb_ℤ remaining (pos ((min_leg_gap + min_leg_remaining) * second))
      then fails no_room_under
      else done s
    else if eqb_ℤ s.zenon.expiration_time (pos 0) || not s.zenon.verified
    then done (log now (ordering_unchecked earliest) s)
    else if ltb_ℤ s.zenon.expiration_time earliest
    then fails expires_after
    else done s
