-- ===== src/Swap/Keys.antt =====
-- wasm/swap.go: which key BuildSwapContract puts into which branch.
use ferry_web.Prelude.Bytes.{Bytes}
use ferry_web.Contract.Script.{Txscript, IsTxscript}
use ferry_web.Contract.Num
use ferry_web.Contract.Build.{build_contract}
use ferry_web.Contract.Parse.{ContractDetails, parse_contract}
use ferry_web.Contract.Canonical.{build_contract-parse}
use ferry_web.Swap.Record.{
  Swap, SwapKey, Leg, send, receive, other_leg, Network, network_params, log, contract_built,
}
use ferry_web.Swap.Build.{
  done, >>=-eq-done, or_fails-eq-done, of_contract-eq-done, check-eq-done, done_inj, past_draft,
  branch_keys, build_swap_contract, hash_not_set, pkh_not_set, key_missing, lock_time_not_set,
  unknown_network, no_address,
}
use ferry_web.Prelude.{
  ◌≡◌, refl, sym, ap, ◌∙◌, ◌⊎◌, inl, inr, not, Option, some, ◌==◌, length, is_empty,
}
use ferry_web.Prelude.Int.{ℤ, pos, eqb_ℤ}
use ferry_web.Prelude.Text.{Text}

-- The refund branch pays the side that funds, and the redeem branch the other.
abbrev pub PaysRightParty : Swap → SwapKey → ContractDetails → Type 0
PaysRightParty s key d =
    ((s.leg ≡ send) × (d.pkh_refund ≡ key.pkh) × (d.pkh_redeem ≡ s.counterparty_pkh))
    ⊎ ((s.leg ≡ receive) × (d.pkh_refund ≡ s.counterparty_pkh) × (d.pkh_redeem ≡ key.pkh))

keys_of :
    (leg : Leg) (ours theirs : Bytes) {refund redeem : Bytes}
    → branch_keys leg ours theirs ≡ done (refund, redeem)
    → ((leg ≡ send) × (refund ≡ ours) × (redeem ≡ theirs))
      ⊎ ((leg ≡ receive) × (refund ≡ theirs) × (redeem ≡ ours))
keys_of send ours theirs h = inl (refl, cc, cc)
keys_of receive ours theirs h = inr (refl, cc, cc)
keys_of (other_leg x) ours theirs h = cc

module _ (t : Txscript) (ok : IsTxscript t) (address : Bytes → Network → Option Text) where
  -- A contract that is built for a swap reads back as the swap's hash and locktime, with this side's key
  -- in the branch of its leg and the counterparty's in the other.
  pub build_swap_contract-parse :
      (now : ℤ) (s : Swap) {s' : Swap}
      → build_swap_contract t address now s ≡ done s'
      → (key : SwapKey) × (d : ContractDetails) × (s.key ≡ some key)
        × (parse_contract t s'.contract ≡ Num.ok d)
        × (d.secret_hash ≡ s.secret_hash)
        × (d.lock_time ≡ s.lock_time)
        × PaysRightParty s key d
  unfolding build_swap_contract log
  build_swap_contract-parse now s {s'} h =
      let (x1, h1) = check-eq-done (not (is_empty s.secret_hash)) hash_not_set _ h in
      let (x2, h2) = check-eq-done (length s.counterparty_pkh == 20) pkh_not_set _ h1 in
      let (key, has_key, h3) = or_fails-eq-done s.key key_missing _ h2 in
      let (x3, h4) = check-eq-done (not (eqb_ℤ s.lock_time (pos 0))) lock_time_not_set _ h3 in
      let (params, known, h5) = or_fails-eq-done (network_params s.network) unknown_network _ h4 in
      let ((refund, redeem), branch, h6) =
        >>=-eq-done (branch_keys s.leg key.pkh s.counterparty_pkh) _ h5 in
      let (contract, built, h7) =
        of_contract-eq-done (build_contract t refund redeem s.lock_time s.secret_hash) _ h6 in
      let (addr, at, h8) = or_fails-eq-done (address contract params) no_address _ h7 in
      let parsed =
        build_contract-parse t ok refund redeem s.lock_time s.secret_hash contract built in
      let is_s' : log now (contract_built addr s.lock_time)
            (record s { contract = contract; contract_addr = addr; state = past_draft s.state })
          ≡ s' =
        done_inj h8 in
      let is_contract : contract ≡ s'.contract = ap (λ (x : Swap). x.contract) is_s' in
      (
        key,
        record {
          secret_hash = s.secret_hash;
          pkh_redeem = redeem;
          pkh_refund = refund;
          lock_time = s.lock_time;
          secret_size = pos 32;
        },
        has_key,
        ap (parse_contract t) (sym is_contract) ∙ parsed,
        refl,
        refl,
        keys_of s.leg key.pkh s.counterparty_pkh branch,
      )
