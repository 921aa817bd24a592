-- ===== src/Outcome/Redeemed.antt =====
-- wasm/manager.go: what Redeem broadcasts.
use ferry_web.Prelude.{
  ◌≡◌, sym, ap, subst, ◌∙◌, ◌≢◌, ◌⊎◌, inl, inr, true, false, not, some, [], arith, Bool-cases,
  Option-cases, is_empty, is_some,
}
use ferry_web.Prelude.Int.{ℤ, pos, ◌≤ℤ◌, leb_ℤ}
use ferry_web.Prelude.Text.{Text}
use ferry_web.Contract.Num
use ferry_web.Contract.Parse.{ContractDetails, parse_contract}
use ferry_web.Swap.Record.{
  Swap, SwapKey, FundingOutput, SpendResult, Network, network_params, is_receive, is_initiator, log,
}
use ferry_web.Swap.Roles.{redeem_held_for_short_funding, funding_short, redeem_reveals_secret}
use ferry_web.Swap.Build.{
  done, done_inj, check-then, or_fails-then, call-then, wrong_side, no_funding, secret_unknown,
  short_funding, unknown_network,
}
use ferry_web.Bitcoin.Spend.{build_redeem}
use ferry_web.Bitcoin.Signed.{IsSpend, redeem_opening, build_redeem-IsSpend}
use ferry_web.Watch.Backend.{Backend, Packages}
use ferry_web.Watch.Keeps.{Terms, Keeps, Keeps-trans, Keeps-refl, Keeps-log}
use ferry_web.Watch.Poll.{rate_or_fallback}
use ferry_web.Outcome.Retry.{payout_address}
use ferry_web.Outcome.Spend.{Ready, warn_late, bound_funding, redeem_ready}
use ferry_web.Outcome.Ready.{PaysTo, payout_address-done, IsReady, bound_funding-IsBound, ready}

module _ (p : Packages) (b : Backend) where
  Keeps-late : (now : ℤ) (s : Swap) → Keeps p.sha256 s (warn_late now s)
  unfolding warn_late
  Keeps-late now s = elim (Bool-cases (leb_ℤ s.lock_time now)) [
    | inl late ↦ rw (late, warn_late) (Keeps-log p.sha256 now _ s)
    | inr early ↦ rw (early, warn_late) (Keeps-refl p.sha256 s)
  ]

  late-funding : (now : ℤ) (s : Swap) → (warn_late now s).funding ≡ s.funding
  unfolding warn_late log
  late-funding now s = ground arith

  -- What is broadcast by a redeem.
  pub record IsRedeem (asked : Text) (s : Swap) (r : Ready) : Type 0 where
    pub is_ready : IsReady p b asked s r
    pub receives : is_receive s.leg ≡ true
    pub full_or_public : (s.amount_sats ≤ℤ r.funding.value) ⊎ (is_initiator s.role ≡ false)
    pub details : ContractDetails
    pub readable : parse_contract p.txscript s.contract ≡ Num.ok details
    pub key : SwapKey
    pub has_key : s.key ≡ some key
    pub pays_us : details.pkh_redeem ≡ key.pkh
    pub known : s.secret ≢ []
    pub opens : p.sha256 s.secret ≡ details.secret_hash
    pub is_spend :
        IsSpend p.btcd s.contract r.funding key
          (redeem_opening p.txscript s.contract key.pub_key s.secret)
          r.dest
          is_ready.params
          (pos 0)
          r.spend

  unheld :
      (s : Swap) (f : FundingOutput)
      → s.funding ≡ some f
      → is_receive s.leg ≡ true
      → not (redeem_held_for_short_funding s) ≡ true
      → (s.amount_sats ≤ℤ f.value) ⊎ (is_initiator s.role ≡ false)
  unfolding redeem_held_for_short_funding funding_short redeem_reveals_secret
  unheld s f seen receives free = elim (Bool-cases (is_initiator s.role)) [
    | inr other ↦ inr other
    | inl first ↦ inl (ground (arith, seen))
  ]

  kept_secret :
      (s s' : Swap) → Keeps p.sha256 s s' → not (is_empty s.secret) ≡ true → s'.secret ≡ s.secret
  kept_secret s s' k known = elim k.same_secret [
    | inl same ↦ same
    | inr (bare, _) ↦ cc (rw bare at known)
  ]

  spend-IsRedeem :
      (now : ℤ) (asked : Text) (s s' : Swap) (f : FundingOutput) (dest : Text) (params : Network)
      (spend : SpendResult)
      → is_receive s.leg ≡ true
      → is_some s.funding ≡ true
      → not (is_empty s.secret) ≡ true
      → not (redeem_held_for_short_funding s) ≡ true
      → PaysTo s asked dest
      → network_params s.network ≡ some params
      → bound_funding p b now params (warn_late now s) ≡ done (s', f)
      → build_redeem p.txscript p.btcd p.floats p.sha256 s'.contract f s'.key s'.secret dest
          (rate_or_fallback (b.fee_rate 3))
          params
        ≡ done spend
      → IsRedeem asked s (record { swap = s'; funding = f; dest = dest; spend = spend })
  unfolding ready
  spend-IsRedeem now asked s s' f dest params spend receives funded known free pays named bound
        built =
      elim (Option-cases s.funding) [
        | inl bare ↦ cc (rw bare at funded)
        | inr (adopted, seen) ↦
            let late = warn_late now s in
            let (is_bound, has, kept) =
              bound_funding-IsBound p b now params late s' f adopted (late-funding now s ∙ seen)
                bound in
            let is_ready =
              ready p b asked params s late
                (record { swap = s'; funding = f; dest = dest; spend = spend }) adopted named seen
                (Keeps-late now s) is_bound has kept pays in
            let t = is_ready.same_terms in
            let same_contract = ap (λ (x : Terms). x.contract) t in
            let (details, k, readable, has_key, pays_us, opens, sized, is_spend) =
              build_redeem-IsSpend p.txscript p.btcd p.floats p.sha256 s'.contract f s'.key
                s'.secret dest (rate_or_fallback (b.fee_rate 3)) params spend built in
            let same_secret : s'.secret ≡ s.secret =
              kept_secret s s' (Keeps-trans p.sha256 s late s' (Keeps-late now s) kept) known in
            record {
              is_ready = is_ready;
              receives = receives;
              full_or_public =
                  subst (λ v. (s.amount_sats ≤ℤ v) ⊎ (is_initiator s.role ≡ false))
                    (sym is_ready.same_value) (unheld s adopted seen receives free);
              details = details;
              readable = ap (parse_contract p.txscript) (sym same_contract) ∙ readable;
              key = k;
              has_key = ap (λ (x : Terms). x.key) (sym t) ∙ has_key;
              pays_us = pays_us;
              known = λ e. cc (rw e at known);
              opens = ap p.sha256 (sym same_secret) ∙ opens;
              is_spend =
                  subst
                    (λ c.
                      IsSpend p.btcd c f k (redeem_opening p.txscript c k.pub_key s.secret) dest
                        params (pos 0) spend)
                    same_contract
                    (subst
                      (λ x.
                        IsSpend p.btcd s'.contract f k
                          (redeem_opening p.txscript s'.contract k.pub_key x) dest params (pos 0)
                          spend)
                      same_secret is_spend);
            }
      ]

  -- A redeem that is ready to be broadcast is the receiving side's, spends the funding output of the
  -- contract, read off the chain or bound before, and pays the swap's own address, which the given one may
  -- not contradict, or the given one where the swap has none. Its script is the signature by the
  -- swap's key, that key, the swap's secret, which hashes to the contract's hash, the choice of the redeem branch and
  -- the contract. Where the initiator redeems, the funding holds the agreed amount in full.
  pub redeem_ready-IsRedeem :
      (now : ℤ) (asked : Text) (s : Swap) (r : Ready)
      → redeem_ready p b now asked s ≡ done r
      → IsRedeem asked s r
  unfolding redeem_ready
  redeem_ready-IsRedeem now asked s r e = check-then (is_receive s.leg) wrong_side _ e λ receives e.
      check-then (is_some s.funding) no_funding _ e λ funded e.
        check-then (not (is_empty s.secret)) secret_unknown _ e λ known e.
          check-then (not (redeem_held_for_short_funding s)) short_funding _ e λ free e.
            call-then (payout_address s asked) _ e λ dest pays e.
              or_fails-then (network_params s.network) unknown_network _ e λ params named e.
                let late = warn_late now s in
                call-then (bound_funding p b now params late) _ e λ found bound e.
                  call-then
                    (build_redeem p.txscript p.btcd p.floats p.sha256 found.0.contract found.1
                      found.0.key found.0.secret dest (rate_or_fallback (b.fee_rate 3)) params)
                    _ e
                    λ spend built e. subst (IsRedeem asked s) (done_inj e) (
                      spend-IsRedeem now asked s found.0 found.1 dest params spend receives funded
                        known free (payout_address-done s asked dest pays) named bound built)
