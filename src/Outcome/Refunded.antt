-- ===== src/Outcome/Refunded.antt =====
-- wasm/manager.go: what Refund broadcasts.
use ferry_web.Prelude.{◌≡◌, ap, subst, ◌∙◌, ◌⊎◌, inl, inr, true, some, arith, Option-cases, is_some}
use ferry_web.Prelude.Int.{ℤ, ◌≤ℤ◌, leb_ℤ}
use ferry_web.Prelude.Text.{Text}
use ferry_web.Contract.Num
use ferry_web.Contract.Parse.{ContractDetails, parse_contract}
use ferry_web.Swap.Record.{
  Swap, SwapKey, FundingOutput, SpendResult, Network, network_params, is_send,
}
use ferry_web.Swap.Build.{
  done, done_inj, check-then, or_fails-then, call-then, wrong_side, no_funding, too_early,
  unknown_network,
}
use ferry_web.Bitcoin.Signed.{IsSpend, refund_opening, build_refund-IsSpend}
use ferry_web.Watch.Backend.{Backend, Packages}
use ferry_web.Watch.Keeps.{Keeps-refl}
use ferry_web.Watch.Poll.{rate_or_fallback}
use ferry_web.Outcome.Retry.{payout_address}
use ferry_web.Outcome.Spend.{Ready, bound_funding, refund_for, refund_ready}
use ferry_web.Outcome.Ready.{PaysTo, payout_address-done, IsReady, bound_funding-IsBound, ready}

module _ (p : Packages) (b : Backend) where
  -- What a refund that was not signed ahead is.
  pub record IsBuilt (s : Swap) (params : Network) (r : Ready) : Type 0 where
    pub details : ContractDetails
    pub readable : parse_contract p.txscript s.contract ≡ Num.ok details
    pub key : SwapKey
    pub has_key : s.key ≡ some key
    pub refunds_us : details.pkh_refund ≡ key.pkh
    pub is_spend :
        IsSpend p.btcd s.contract r.funding key
          (refund_opening p.txscript s.contract key.pub_key)
          r.dest
          params
          details.lock_time
          r.spend

  -- What is broadcast by a refund.
  pub record IsRefund (now : ℤ) (asked : Text) (s : Swap) (r : Ready) : Type 0 where
    pub is_ready : IsReady p b asked s r
    pub sends : is_send s.leg ≡ true
    pub due : s.lock_time ≤ℤ now
    pub signed : (r.swap.refund_tx ≡ some r.spend) ⊎ IsBuilt r.swap is_ready.params r

  refund_for-done :
      (s : Swap) (f : FundingOutput) (dest : Text) (params : Network) (spend : SpendResult)
      → refund_for p b s f dest params ≡ done spend
      → (s.refund_tx ≡ some spend)
        ⊎ IsBuilt s params (record { swap = s; funding = f; dest = dest; spend = spend })
  unfolding refund_for
  refund_for-done s f dest params spend e = elim (Option-cases s.refund_tx) [
    | inr (signed, kept) ↦ inl (kept ∙ ap some (done_inj (rw (kept, refund_for) at e)))
    | inl fresh ↦
        let (details, k, readable, has_key, refunds_us, is_spend) =
          build_refund-IsSpend p.txscript p.btcd p.floats s.contract f s.key dest
            (rate_or_fallback (b.fee_rate 6)) params spend (rw (fresh, refund_for) at e) in
        inr (record {
          details = details;
          readable = readable;
          key = k;
          has_key = has_key;
          refunds_us = refunds_us;
          is_spend = is_spend;
        })
  ]

  spend-IsRefund :
      (now : ℤ) (asked : Text) (s s' : Swap) (f : FundingOutput) (dest : Text) (params : Network)
      (spend : SpendResult)
      → is_send s.leg ≡ true
      → is_some s.funding ≡ true
      → leb_ℤ s.lock_time now ≡ true
      → PaysTo s asked dest
      → network_params s.network ≡ some params
      → bound_funding p b now params s ≡ done (s', f)
      → refund_for p b s' f dest params ≡ done spend
      → IsRefund now asked s (record { swap = s'; funding = f; dest = dest; spend = spend })
  unfolding ready
  spend-IsRefund now asked s s' f dest params spend sends funded due pays named bound built =
      elim (Option-cases s.funding) [
        | inl bare ↦ cc (rw bare at funded)
        | inr (adopted, seen) ↦
            let (is_bound, has, kept) =
              bound_funding-IsBound p b now params s s' f adopted seen bound in
            let r : Ready = record { swap = s'; funding = f; dest = dest; spend = spend } in
            record {
              is_ready =
                  ready p b asked params s s r adopted named seen (Keeps-refl p.sha256 s) is_bound
                    has kept pays;
              sends = sends;
              due = ground arith;
              signed = refund_for-done s' f dest params spend built;
            }
      ]

  -- A refund that is ready to be broadcast is the funding side's, after the locktime, of a funding that is
  -- bound to the contract of the record. It is the refund that the record holds as it was signed
  -- ahead, or a spend of that funding alone, signed with the swap's key, through the refund branch and with
  -- the contract's own locktime, to the swap's address, which the given one may not contradict, or to
  -- the given one where the swap has none.
  pub refund_ready-IsRefund :
      (now : ℤ) (asked : Text) (s : Swap) (r : Ready)
      → refund_ready p b now asked s ≡ done r
      → IsRefund now asked s r
  unfolding refund_ready
  refund_ready-IsRefund now asked s r e = check-then (is_send s.leg) wrong_side _ e λ sends e.
      check-then (is_some s.funding) no_funding _ e λ funded e.
        check-then (leb_ℤ s.lock_time now) too_early _ e λ due e.
          call-then (payout_address s asked) _ e λ dest pays e.
            or_fails-then (network_params s.network) unknown_network _ e λ params named e.
              call-then (bound_funding p b now params s) _ e λ found bound e.
                call-then (refund_for p b found.0 found.1 dest params) _ e λ spend built e.
                  subst (IsRefund now asked s) (done_inj e) (
                    spend-IsRefund now asked s found.0 found.1 dest params spend sends funded due
                      (payout_address-done s asked dest pays) named bound built)
