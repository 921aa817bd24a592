-- ===== src/Manager/Steps.antt =====
-- wasm/manager.go: what the steps of Create leave as it is.
use ferry_web.Prelude.{
  ◌≡◌, refl, sym, subst, ◌∙◌, inl, inr, Bool, not, ◌&&◌, Option, arith, ◌==◌, Bool-cases, length,
  is_empty,
}
use ferry_web.Prelude.Int.{ℤ, pos, eqb_ℤ}
use ferry_web.Prelude.Text.{Text}
use ferry_web.Prelude.Bytes.{Bytes}
use ferry_web.Prelude.Duration.{second}
use ferry_web.Prelude.Hex.{hex_decode}
use ferry_web.Prelude.Result.{ok}
use ferry_web.Contract.Num.{valid_lock_time}
use ferry_web.Swap.Record.{
  Swap, SwapKey, FundingOutput, network_params, Role, Leg, is_initiator, is_send, log,
}
use ferry_web.Swap.Offer.{CreateParams}
use ferry_web.Contract.Build.{build_contract}
use ferry_web.Swap.Build.{
  branch_keys, hash_not_set, pkh_not_set, key_missing, lock_time_not_set, no_address, done,
  build_swap_contract, done_inj, check-then, or_fails-then, call-then, contract-then,
  unknown_network, hash_missing, bad_hash, bad_hours, bad_pkh_hex, no_randomness,
}
use ferry_web.Store.Records.{Backing, Json, save, advanced}
use ferry_web.Store.Stale.{save-ok}
use ferry_web.Manager.Legs.{plan_zenon_leg}
use ferry_web.Manager.Create.{
  Drawn, Libraries, hours_allowed, lock_of, over_cap, with_secret, with_lock, with_pkh, with_built,
}

-- The addresses, the token and the amount of the Zenon leg.
abbrev pub Legs : Type 0
Legs = Text × Text × Text × Text

abbrev pub legs : Swap → Legs
legs s =
    (s.zenon.self_address, s.zenon.peer_address, s.zenon.token_standard, s.zenon.amount_display)

-- What the later steps of a create leave as it is.
abbrev pub Core : Type 0
Core = Role × Bytes × Bytes × Option SwapKey × ℤ × Text × Text × Option FundingOutput × Leg × Legs

abbrev pub core : Swap → Core
core s = (
  s.role,
  s.secret,
  s.secret_hash,
  s.key,
  s.amount_sats,
  s.dest_addr,
  s.network,
  s.funding,
  s.leg,
  legs s,
)

-- The other fields of the core.
abbrev pub Base : Type 0
Base = Role × Option SwapKey × ℤ × Text × Text × Option FundingOutput × Leg × Legs

abbrev pub base : Swap → Base
base s = (s.role, s.key, s.amount_sats, s.dest_addr, s.network, s.funding, s.leg, legs s)

plan_zenon_leg-core : (s : Swap) (now : ℤ) → core (plan_zenon_leg s now) ≡ core s
unfolding plan_zenon_leg
plan_zenon_leg-core s now = ground arith

over_cap-core : (now : ℤ) (s : Swap) → core (over_cap now s) ≡ core s
unfolding log
over_cap-core now s = ground arith

module _ (l : Libraries) where
  pub with_lock-core :
      (now : ℤ) (p : CreateParams) (s s' : Swap) → with_lock l now p s ≡ done s' → core s' ≡ core s
  unfolding with_lock
  with_lock-core now p s s' e = check-then (hours_allowed p s) bad_hours _ e λ _ e₁.
      contract-then (valid_lock_time (lock_of now p s)) _ e₁ λ _ _ e₂.
        subst (λ u. core u ≡ core s) (done_inj e₂)
          (over_cap-core now (plan_zenon_leg (record s { lock_time = lock_of now p s }) now)
            ∙ plan_zenon_leg-core (record s { lock_time = lock_of now p s }) now)

  pub with_pkh-core : (p : CreateParams) (s s' : Swap) → with_pkh l p s ≡ done s' → core s' ≡ core s
  unfolding with_pkh
  with_pkh-core p s s' e = elim (Bool-cases (is_empty p.counterparty_pkh_hex)) [
    | inl blank ↦ subst (λ u. core u ≡ core s) (done_inj (rw (blank, with_pkh) at e)) refl
    | inr given ↦
        or_fails-then (hex_decode p.counterparty_pkh_hex) bad_pkh_hex _ (rw (given, with_pkh) at e)
          λ pkh _ e₁.
            check-then (length pkh == 20) bad_pkh_hex _ e₁
              λ _ e₂. subst (λ u. core u ≡ core s) (done_inj e₂) refl
  ]

  built-core :
      (now : ℤ) (s s' : Swap)
      → build_swap_contract l.txscript l.address now s ≡ done s'
      → core s' ≡ core s
  unfolding build_swap_contract log
  built-core now s s' e = check-then (not (is_empty s.secret_hash)) hash_not_set _ e λ _ e₁.
      check-then (length s.counterparty_pkh == 20) pkh_not_set _ e₁ λ _ e₂.
        or_fails-then s.key key_missing _ e₂ λ key _ e₃.
          check-then (not (eqb_ℤ s.lock_time (pos 0))) lock_time_not_set _ e₃ λ _ e₄.
            or_fails-then (network_params s.network) unknown_network _ e₄ λ params _ e₅.
              call-then (branch_keys s.leg key.pkh s.counterparty_pkh) _ e₅ λ keys _ e₆.
                contract-then (build_contract l.txscript keys.0 keys.1 s.lock_time s.secret_hash) _
                  e₆
                  λ c _ e₇.
                    or_fails-then (l.address c params) no_address _ e₇
                      λ a _ e₈. subst (λ u. core u ≡ core s) (done_inj e₈) refl

  pub with_built-core : (now : ℤ) (s s' : Swap) → with_built l now s ≡ done s' → core s' ≡ core s
  unfolding with_built
  with_built-core now s s' e =
      elim (Bool-cases (is_send s.leg && length s.counterparty_pkh == 20)) [
        | inl can ↦ built-core now s s' (rw (can, with_built) at e)
        | inr cannot ↦ subst (λ u. core u ≡ core s) (done_inj (rw (cannot, with_built) at e)) refl
      ]

  pub with_secret-base :
      (now : ℤ) (drawn : Drawn) (p : CreateParams) (s s' : Swap)
      → with_secret l now drawn p s ≡ done s'
      → base s' ≡ base s
  unfolding with_secret log
  with_secret-base now drawn p s s' e = elim (Bool-cases (is_initiator p.role)) [
    | inl first ↦
        or_fails-then drawn.secret no_randomness _ (rw (first, with_secret) at e)
          λ secret _ e₁. subst (λ u. base u ≡ base s) (done_inj e₁) refl
    | inr second ↦
        check-then (not (is_empty p.secret_hash_hex)) hash_missing _ (rw (second, with_secret) at e)
          λ _ e₁. or_fails-then (hex_decode p.secret_hash_hex) bad_hash _ e₁ λ hash _ e₂.
            check-then (length hash == 32) bad_hash _ e₂
              λ _ e₃. subst (λ u. base u ≡ base s) (done_inj e₃) refl
  ]

module _ (j : Json) (full : Backing → Text → Text → Bool) (prefix : Text) where
  pub saved-core :
      (store : Backing) (t : Swap) (r : Backing × Swap)
      → save j full prefix store t ≡ ok r
      → core r.1 ≡ core t
  unfolding advanced
  saved-core store t r e =
      let saved = (save-ok j full prefix store t e).3 in
      subst (λ u. core u ≡ core t) (sym saved) refl
