-- ===== src/Manager/Expect.antt =====
-- wasm/manager.go: zenonVerifyParams, and what it means for an entry that is verified.
use ferry_web.Prelude.Bytes.{Bytes}
use ferry_web.Prelude.Hex.{hex_encode}
use ferry_web.Swap.Record.{Swap}
use ferry_web.Swap.Roles.{zenon_leg_is_initiators, zenon_htlc_is_ours}
use ferry_web.Swap.Terms.{MissingTerm, missing_zenon_terms, missing_reasons, agreed_token}
use ferry_web.Swap.Commit.{min_leg_gap, min_leg_remaining}
use ferry_web.Prelude.Duration.{second}
use ferry_web.Zenon.Entry.{HtlcInfo}
use ferry_web.Zenon.Verify
use ferry_web.Zenon.Verify.{VerifyParams, verify}
use ferry_web.Zenon.Sound.{verify-Matches}
use ferry_web.Manager.Hours.{Ordinary, one_sided}
use ferry_web.Prelude.{
  ◌*◌, ◌≡◌, refl, ◌⊎◌, inl, inr, true, false, not, ◌&&◌, Option, none, List, [], ◌∷◌, arith,
  if◌then◌else◌, Bool-cases, is_empty,
}
use ferry_web.Prelude.Int.{ℤ, pos, ◌+ℤ◌, ◌-ℤ◌, ◌≤ℤ◌, ◌<ℤ◌, ltb_ℤ, int_laws}
use ferry_web.Prelude.Int64.{i64, i64_exact, add64, sub64}
use ferry_web.Prelude.Text.{Text}

unfoldable pub zenon_verify_params : Swap → VerifyParams
unfolding hex_encode agreed_token missing_zenon_terms missing_reasons zenon_leg_is_initiators add64
    sub64
zenon_verify_params s =
    let z = s.zenon in
    let known = not (is_empty s.contract) && ltb_ℤ (pos 0) s.lock_time in
    record {
      secret_hash_hex = hex_encode s.secret_hash;
      expect_id = [];
      expect_token_standard = agreed_token z;
      expect_recipient = if zenon_htlc_is_ours s then z.peer_address else z.self_address;
      expect_sender = if zenon_htlc_is_ours s then z.self_address else z.peer_address;
      min_amount = none;
      missing_terms = missing_reasons (missing_zenon_terms s);
      amount_uncheckable = [];
      now = pos 0;
      min_remaining = pos (min_leg_remaining * second);
      max_expiration =
          if known && not (zenon_leg_is_initiators s)
          then sub64 s.lock_time (pos min_leg_gap)
          else pos 0;
      min_expiration =
          if known && zenon_leg_is_initiators s then add64 s.lock_time (pos min_leg_gap) else pos 0;
    }

-- The parameters with what a node answers filled in: the id that was asked for, the clock of the chain, the
-- agreed amount in base units or why there is none.
abbrev pub answered : Swap → Text → ℤ → Option ℤ → Text → VerifyParams
unfolding zenon_verify_params
answered s id clock amount why =
    let want = zenon_verify_params s in
    record want { expect_id = id; now = clock; min_amount = amount; amount_uncheckable = why }

reasons-nil : (ms : List MissingTerm) → missing_reasons ms ≡ [] → ms ≡ []
unfolding missing_reasons
reasons-nil [] h = refl
reasons-nil (m ∷ ms) h = cc

pub known-true :
    (s : Swap)
    → is_empty s.contract ≡ false
    → pos 7200 <ℤ s.lock_time
    → (not (is_empty s.contract) && ltb_ℤ (pos 0) s.lock_time) ≡ true
known-true s h k = ground arith

-- An entry that is verified for a swap whose Bitcoin contract is known lacks no agreed term, and the
-- initiator's leg expires last by two hours, whichever leg that is. The locktime is past two hours after
-- 1970 and less than 2 ^ 62.
pub verified_in_order :
    (base64 : Text → Option Bytes) (s : Swap) (info : HtlcInfo) (id : Text) (clock : ℤ)
    (amount : Option ℤ) (why : Text)
    → verify base64 info (answered s id clock amount why) ≡ Verify.verified
    → is_empty s.contract ≡ false
    → pos 7200 <ℤ s.lock_time
    → Ordinary s.lock_time
    → (missing_zenon_terms s ≡ [])
      × (((zenon_leg_is_initiators s ≡ true) × ((s.lock_time +ℤ pos 7200) ≤ℤ info.expiration_time))
          ⊎ ((zenon_leg_is_initiators s ≡ false)
              × (info.expiration_time ≤ℤ (s.lock_time -ℤ pos 7200))))
unfolding zenon_verify_params add64 sub64
verified_in_order base64 s info id clock amount why h built late small =
    let m = (verify-Matches base64 info (answered s id clock amount why)).0 h in
    let known = known-true s built late in
    let sum =
      i64_exact (s.lock_time +ℤ pos 7200) (omega (int_laws, one_sided (s.lock_time +ℤ pos 7200))) in
    let diff =
      i64_exact (s.lock_time -ℤ pos 7200) (omega (int_laws, one_sided (s.lock_time -ℤ pos 7200))) in
    (
      reasons-nil (missing_zenon_terms s) m.complete,
      elim (Bool-cases (zenon_leg_is_initiators s)) [
        | inl i ↦
            let least : (i64 (s.lock_time +ℤ pos 7200) ≤ℤ pos 0)
                ⊎ (i64 (s.lock_time +ℤ pos 7200) ≤ℤ info.expiration_time) =
              rw (known, i) at m.not_early in
            inl (i, omega (int_laws, rw sum at least))
        | inr i ↦
            let most : (i64 (s.lock_time -ℤ pos 7200) ≤ℤ pos 0)
                ⊎ (info.expiration_time ≤ℤ i64 (s.lock_time -ℤ pos 7200)) =
              rw (known, i) at m.not_late in
            inr (i, omega (int_laws, rw diff at most))
      ],
    )
