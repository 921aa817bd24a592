-- ===== src/Swap/Commit.antt =====
-- wasm/swap.go: when the funding can be relied on, and what has been staked on a contract.
use ferry_web.Prelude.Bytes.{Bytes}
use ferry_web.Prelude.Hex.{hex_encode}
use ferry_web.Swap.Record.{
  Swap, FundingOutput, State, redeemed, refunded, draft, awaiting_funding, expired, Network,
  network_params,
}
use ferry_web.Swap.Roles.{zenon_htlc_is_ours, bitcoin_leg_is_initiators}
use ferry_web.Prelude.{
  ℕ, ◌+◌, ◌≡◌, refl, sym, subst, ◌∙◌, ◌↔◌, ◌⊎◌, inl, inr, Bool, true, false, not, ◌&&◌, ◌||◌,
  Option, none, some, arith, if◌then◌else◌, Bool-cases, Option-cases, is_empty, is_some,
}
use ferry_web.Prelude.Int.{ℤ, pos, ◌-ℤ◌, ◌≤ℤ◌, ltb_ℤ}
use ferry_web.Prelude.Int64.{Fits, i64_exact, sub64}
use ferry_web.Prelude.Text.{trim_space, equal_fold}

-- MinLegGap and MinLegRemaining, in seconds.
abbrev pub min_leg_gap : ℕ
min_leg_gap = 7200

abbrev pub min_leg_remaining : ℕ
min_leg_remaining = 7200

abbrev pub commit_confirmations : ℕ
commit_confirmations = 1

unfoldable pub zenon_create_waits_on_btc : Swap → Bool
unfolding bitcoin_leg_is_initiators
zenon_create_waits_on_btc s = zenon_htlc_is_ours s && bitcoin_leg_is_initiators s

pub data Blocker : Type 0 where
  not_seen already_spent timelock_passed : Blocker
  locktime_too_close : ℤ → Blocker
  short_by : ℤ → ℤ → Blocker
  in_mempool : Blocker
  too_shallow : ℤ → Blocker

abbrev pub is_spent : State → Bool
is_spent redeemed = true
is_spent refunded = true
is_spent _ = false

abbrev pub is_expired : State → Bool
is_expired expired = true
is_expired _ = false

-- FundingCommitBlocker at the time `now`, `none` for "".
unfoldable pub funding_commit_blocker : ℤ → Swap → Option Blocker
unfolding zenon_create_waits_on_btc sub64
funding_commit_blocker now s =
    let left = sub64 s.lock_time now in
    if not (zenon_create_waits_on_btc s) then none else elim s.funding [
      | none ↦ some not_seen
      | some f ↦
          if is_spent s.state
          then some already_spent
          else if is_expired s.state
          then some timelock_passed
          else if ltb_ℤ (pos 0) s.lock_time && ltb_ℤ left (pos (min_leg_gap + min_leg_remaining))
          then some (locktime_too_close left)
          else if ltb_ℤ f.value s.amount_sats
          then some (short_by f.value s.amount_sats)
          else if not f.confirmed
          then some in_mempool
          else if ltb_ℤ f.confirmations (pos commit_confirmations)
          then some (too_shallow f.confirmations)
          else none
    ]

abbrev pub funding_committed : ℤ → Swap → Bool
unfolding funding_commit_blocker
funding_committed now s = not (is_some (funding_commit_blocker now s))

pub data Staked : Type 0 where
  funding_seen payment_sent refund_signed htlc_exists past_funding : Staked

abbrev before_funding : State → Bool
before_funding draft = true
before_funding awaiting_funding = true
before_funding _ = false

-- `none` where nothing is staked on the contract.
unfoldable pub contract_committed : Swap → Option Staked
unfolding trim_space
contract_committed s =
    if is_empty s.contract
    then none
    else if is_some s.funding
    then some funding_seen
    else if is_some s.funding_broadcast
    then some payment_sent
    else if is_some s.refund_tx
    then some refund_signed
    else if not (is_empty (trim_space s.zenon.htlc_id))
    then some htlc_exists
    else if not (before_funding s.state)
    then some past_funding
    else none

-- The package's script for a contract is a parameter.
module _ (contract_pk_script : Bytes → Network → Option Bytes) where
  unfoldable pub binds_to : FundingOutput → Bytes → Network → Option Bool
  unfolding equal_fold hex_encode
  binds_to f contract params =
      if is_empty f.pk_script_hex then some true else elim (contract_pk_script contract params) [
        | none ↦ none
        | some want ↦ some (equal_fold f.pk_script_hex (hex_encode want))
      ]

  unfoldable pub funding_bound : Swap → Bool
  unfolding binds_to network_params
  funding_bound s = elim s.funding [
    | none ↦ false
    | some f ↦
        if is_empty f.pk_script_hex || is_empty s.contract
        then false
        else elim (network_params s.network) [
          | none ↦ false
          | some params ↦ elim (binds_to f s.contract params) [ none ↦ false | some bound ↦ bound ]
        ]
  ]

-- What a side that waits for the counterparty's funding needs of it.
pub record IsCommitted (now : ℤ) (s : Swap) (f : FundingOutput) : Type 0 where
  pub seen : s.funding ≡ some f
  pub unspent : is_spent s.state ≡ false
  pub unexpired : is_expired s.state ≡ false
  pub room : (s.lock_time ≤ℤ pos 0) ⊎ (pos 14400 ≤ℤ (s.lock_time -ℤ now))
  pub full : s.amount_sats ≤ℤ f.value
  pub mined : f.confirmed ≡ true
  pub deep : pos 1 ≤ℤ f.confirmations

sub64_exact : (a b : ℤ) → Fits (a -ℤ b) → sub64 a b ≡ a -ℤ b
unfolding sub64
sub64_exact a b h = i64_exact (a -ℤ b) h

abbrev ready : ℤ → Swap → FundingOutput → Bool
ready left s f =
    not (is_spent s.state)
    && not (is_expired s.state)
    && not (ltb_ℤ (pos 0) s.lock_time && ltb_ℤ left (pos 14400))
    && not (ltb_ℤ f.value s.amount_sats)
    && f.confirmed
    && not (ltb_ℤ f.confirmations (pos 1))

committed-ready :
    (now : ℤ) (s : Swap) (f : FundingOutput)
    → zenon_create_waits_on_btc s ≡ true
    → s.funding ≡ some f
    → funding_committed now s ≡ ready (sub64 s.lock_time now) s f
unfolding funding_commit_blocker
committed-ready now s f waits seen = rw (waits, seen) (ground arith)

committed-waits :
    (now : ℤ) (s : Swap) → zenon_create_waits_on_btc s ≡ false → funding_committed now s ≡ true
unfolding funding_commit_blocker
committed-waits now s free = rw free refl

committed-unseen :
    (now : ℤ) (s : Swap)
    → zenon_create_waits_on_btc s ≡ true
    → s.funding ≡ none
    → funding_committed now s ≡ false
unfolding funding_commit_blocker
committed-unseen now s waits unseen = rw (waits, unseen) refl

ready-IsCommitted :
    (now left : ℤ) (s : Swap) (f : FundingOutput)
    → s.funding ≡ some f
    → left ≡ s.lock_time -ℤ now
    → ready left s f ≡ true
    → IsCommitted now s f
ready-IsCommitted now left s f seen is_left h = record {
  seen = seen;
  unspent = ground arith;
  unexpired = ground arith;
  room = rw⁻¹ is_left (ground arith);
  full = ground arith;
  mined = ground arith;
  deep = ground arith;
}

IsCommitted-ready :
    (now left : ℤ) (s : Swap) (f : FundingOutput)
    → left ≡ s.lock_time -ℤ now
    → IsCommitted now s f
    → ready left s f ≡ true
IsCommitted-ready now left s f is_left c =
    let room : (s.lock_time ≤ℤ pos 0) ⊎ (pos 14400 ≤ℤ left) = rw is_left c.room in
    ground (arith, c.unspent, c.unexpired, room, c.full, c.mined, c.deep)

-- Where the creation of the Zenon HTLC waits on the Bitcoin funding, the funding is committed if and only
-- if it is all there, mined and unspent, and the locktime leaves four hours; on every other swap it is not
-- waited on. The time left is within the range of int64.
pub funding_committed_iff :
    (now : ℤ) (s : Swap)
    → Fits (s.lock_time -ℤ now)
    → (funding_committed now s ≡ true)
      ↔ ((zenon_create_waits_on_btc s ≡ false) ⊎ ((f : FundingOutput) × IsCommitted now s f))
funding_committed_iff now s fits = elim (Bool-cases (zenon_create_waits_on_btc s)) [
  | inr free ↦ (λ _. inl free, λ _. committed-waits now s free)
  | inl waits ↦ elim (Option-cases s.funding) [
    | inl unseen ↦ (
      λ h. cc (sym (committed-unseen now s waits unseen) ∙ h),
      λ h. elim h [ inl free ↦ cc (sym waits ∙ free) | inr (f, c) ↦ cc (sym unseen ∙ c.seen) ],
    )
    | inr (f, seen) ↦
        let is_ready = committed-ready now s f waits seen in
        let is_left = sub64_exact s.lock_time now fits in
        (
          λ h. inr (
            f,
            ready-IsCommitted now (sub64 s.lock_time now) s f seen is_left (sym is_ready ∙ h),
          ),
          λ h. elim h [
            | inl free ↦ cc (sym waits ∙ free)
            | inr (f', c) ↦
                let same : f' ≡ f = cc (sym c.seen ∙ seen) in
                is_ready
                ∙ IsCommitted-ready now (sub64 s.lock_time now) s f is_left
                    (subst (IsCommitted now s) same c)
          ],
        )
  ]
]
