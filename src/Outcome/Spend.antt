-- ===== src/Outcome/Spend.antt =====
-- wasm/manager.go: Redeem and Refund. `redeem_ready` and `refund_ready` are what is done before the
-- broadcast. The time is in seconds.
use ferry_web.Prelude.{Bool, not, Option, none, some, if◌then◌else◌, is_empty, is_some}
use ferry_web.Prelude.Int.{ℤ, leb_ℤ}
use ferry_web.Prelude.Text.{Text}
use ferry_web.Swap.Record.{
  Swap, FundingOutput, SpendResult, Network, network_params, redeemed, refunded, is_send,
  is_receive, log, redeeming_late, redeemed_to, refunded_in,
}
use ferry_web.Swap.Roles.{redeem_held_for_short_funding}
use ferry_web.Swap.Build.{
  Call, done, fails, ◌>>=◌, ◌>>◌, check, or_fails, wrong_side, no_funding, secret_unknown,
  short_funding, too_early, unknown_network, not_bound, chain_failed, not_loaded,
}
use ferry_web.Store.Records.{Backing, Json, load}
use ferry_web.Bitcoin.Spend.{build_redeem, build_refund}
use ferry_web.Watch.Backend.{Backend, Packages}
use ferry_web.Watch.Bind.{BindError, bind_funding}
use ferry_web.Watch.Poll.{of_store, rate_or_fallback}
use ferry_web.Outcome.Retry.{payout_address, Others, save_outcome}

-- A spend that is ready: the record, its funding, where it pays, and the transaction.
pub record Ready : Type 0 where
  pub swap : Swap
  pub funding : FundingOutput
  pub dest : Text
  pub spend : SpendResult

unfoldable pub warn_late : ℤ → Swap → Swap
unfolding log
warn_late now s = if leb_ℤ s.lock_time now then log now (redeeming_late s.lock_time) s else s

abbrev pub fill_dest : Text → Swap → Swap
fill_dest dest s = if is_empty s.dest_addr then record s { dest_addr = dest } else s

unfoldable pub redeem_outcome : ℤ → SpendResult → Text → Text → Swap → Swap
unfolding log
redeem_outcome now spend dest txid s =
    log now (redeemed_to dest txid spend.value spend.fee)
      (fill_dest dest (record s { redeem_tx = some spend; state = redeemed }))

-- The code's `&& destAddr != ""` makes no difference to what is filled in.
unfoldable pub refund_outcome : ℤ → SpendResult → Text → Text → Swap → Swap
unfolding log
refund_outcome now spend dest txid s =
    log now (refunded_in txid spend.value spend.fee)
      (fill_dest dest (record s { refund_tx = some spend; state = refunded }))

-- Where nothing went wrong, the record and its funding.
abbrev pub with_funding :
    Option BindError → Option FundingOutput → Swap → Call (Swap × FundingOutput)
with_funding (some _) f s = fails not_bound
with_funding none none s = fails no_funding
with_funding none (some f) s = done (s, f)

module _ (p : Packages) (b : Backend) where
  -- bindFunding, where an error ends the call.
  unfoldable pub bound_funding : ℤ → Network → Swap → Call (Swap × FundingOutput)
  unfolding bind_funding
  bound_funding now params s =
      let (e, s') = bind_funding p.btcd b now params s in with_funding e s'.funding s'

  unfoldable pub redeem_ready : ℤ → Text → Swap → Call Ready
  unfolding redeem_held_for_short_funding payout_address warn_late network_params bound_funding
      build_redeem
  redeem_ready now asked s = do
    check (is_receive s.leg) wrong_side
    check (is_some s.funding) no_funding
    check (not (is_empty s.secret)) secret_unknown
    check (not (redeem_held_for_short_funding s)) short_funding
    dest ← payout_address s asked
    params ← or_fails (network_params s.network) unknown_network
    (s', f) ← bound_funding now params (warn_late now s)
    spend ←
        build_redeem p.txscript p.btcd p.floats p.sha256 s'.contract f s'.key s'.secret dest
          (rate_or_fallback (b.fee_rate 3)) params
    done (record { swap = s'; funding = f; dest = dest; spend = spend })

  -- The refund that was signed ahead, or a new one.
  unfoldable pub refund_for : Swap → FundingOutput → Text → Network → Call SpendResult
  unfolding build_refund
  refund_for s f dest params = elim s.refund_tx [
    | some signed ↦ done signed
    | none ↦
        build_refund p.txscript p.btcd p.floats s.contract f s.key dest
          (rate_or_fallback (b.fee_rate 6)) params
  ]

  unfoldable pub refund_ready : ℤ → Text → Swap → Call Ready
  unfolding payout_address network_params bound_funding refund_for
  refund_ready now asked s = do
    check (is_send s.leg) wrong_side
    check (is_some s.funding) no_funding
    check (leb_ℤ s.lock_time now) too_early
    dest ← payout_address s asked
    params ← or_fails (network_params s.network) unknown_network
    (s', f) ← bound_funding now params s
    spend ← refund_for s' f dest params
    done (record { swap = s'; funding = f; dest = dest; spend = spend })

  module _ (j : Json) (full : Backing → Text → Text → Bool) (prefix : Text) (o : Others) where
    -- Broadcast, and record the outcome.
    unfoldable pub publish :
        ℤ → (SpendResult → Text → Text → Swap → Swap) → Backing → Ready → Call (Backing × Swap)
    unfolding save_outcome
    publish now outcome store r = do
      txid ← or_fails (b.broadcast r.spend.raw_hex) chain_failed
      save_outcome j full prefix o now txid (outcome r.spend r.dest txid) r.swap.contract r.funding
          store r.swap

    unfoldable pub redeem : ℤ → Backing → Text → Text → Call (Backing × Swap)
    unfolding load redeem_ready publish redeem_outcome
    redeem now store id asked = do
      s ← of_store (load j full prefix now store id) not_loaded
      r ← redeem_ready now asked s
      publish now (redeem_outcome now) store r

    unfoldable pub refund : ℤ → Backing → Text → Text → Call (Backing × Swap)
    unfolding load refund_ready publish refund_outcome
    refund now store id asked = do
      s ← of_store (load j full prefix now store id) not_loaded
      r ← refund_ready now asked s
      publish now (refund_outcome now) store r
