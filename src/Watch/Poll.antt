-- ===== src/Watch/Poll.antt =====
-- wasm/manager.go: Refresh, by the parts of its body. The clock is read once, as `now`, in
-- seconds.
use ferry_web.Prelude.{
  ℕ, ◌≡◌, refl, ap, Bool, true, false, not, ◌&&◌, Option, none, some, [], ltb, if◌then◌else◌,
  length, is_empty, is_some,
}
use ferry_web.Prelude.Int.{ℤ, pos, ltb_ℤ, leb_ℤ}
use ferry_web.Prelude.Text.{Text}
use ferry_web.Prelude.Bytes.{Bytes}
use ferry_web.Prelude.Result.{Result, ok, err}
use ferry_web.Swap.Record.{
  Swap, FundingOutput, SpendResult, Network, network_params, funded, expired, is_send, log,
  no_binding, no_destination, no_preimage_yet, saw_funding, switched_funding,
  could_not_read_funding, several_outputs, holds_too_little, could_not_sign_refund, signed_refund,
  could_not_read_spend, recovered_preimage, timelock_reached,
}
use ferry_web.Swap.Roles.{secret_arrives_on_zenon, unlock_payee}
use ferry_web.Swap.Commit.{is_spent}
use ferry_web.Swap.Build.{
  SwapError, Call, done, fails, panics, ◌>>=◌, or_fails, done_inj, unknown_network, chain_failed,
  not_loaded, not_saved,
}
use ferry_web.Ledger.Preimage.{SearchError, find_preimage}
use ferry_web.Store.Records.{StoreError, Backing, Json, load, save}
use ferry_web.Bitcoin.Rate.{Float64, fallback_fee_rate}
use ferry_web.Bitcoin.Spend.{build_refund}
use ferry_web.Watch.Backend.{Utxo, Outspend, Backend, ZenonNode, Packages}
use ferry_web.Watch.Pick.{funding_is_open, pick_funding, track_funding_depth}
use ferry_web.Watch.Bind.{BindError, is_mismatch, bind_funding, note_once}
use ferry_web.Watch.Settle.{absorb_spend}

abbrev pub of_store : {A : Type 0} → Result StoreError A → SwapError → Call A
of_store (ok a) e = done a
of_store (err _) e = fails e

pub of_store-then :
    {P A B : Type 0} {c : B} (r : Result StoreError A) (e : SwapError) (f : A → Call B)
    → (of_store r e >>= f) ≡ done c
    → ((a : A) → r ≡ ok a → f a ≡ done c → P)
    → P
of_store-then (ok a) e f h next = next a refl h
of_store-then (err x) e f h next = cc

pub of_store-done :
    {A : Type 0} {a : A} (r : Result StoreError A) (e : SwapError)
    → of_store r e ≡ done a
    → r ≡ ok a
of_store-done (ok x) e h = ap ok (done_inj h)
of_store-done (err x) e h = cc

abbrev pub preimage_search_pages : ℕ
preimage_search_pages = 10

abbrev pub preimage_search_page_size : ℕ
preimage_search_page_size = 50

abbrev pub rate_or_fallback : Option Float64 → Float64
rate_or_fallback none = fallback_fee_rate
rate_or_fallback (some rate) = rate

abbrev pub funding_of : Utxo → FundingOutput
funding_of u = record {
  tx_id = u.tx_id;
  vout = u.vout;
  value = u.value;
  confirmed = u.status.confirmed;
  block_height = u.status.block_height;
  confirmations = pos 0;
  pk_script_hex = [];
}

-- best != nil && (sw.Funding == nil || best.Value > sw.Funding.Value)
abbrev pub improves : Option FundingOutput → Utxo → Bool
improves none best = true
improves (some f) best = ltb_ℤ f.value best.value

-- What is said of the output that is adopted.
unfoldable pub announce : ℤ → Utxo → Swap → Swap
unfolding log
announce now u s = elim s.funding [
  | none ↦
      log now (saw_funding u.tx_id u.vout u.value u.status.confirmed) (record s { state = funded })
  | some f ↦ record (log now (switched_funding f.tx_id f.vout f.value u.tx_id u.vout u.value) s) {
    refund_tx = none;
  }
]

unfoldable pub note_unread : ℤ → Option BindError → Swap → Swap
unfolding log
note_unread now none s = s
note_unread now (some e) s = if is_mismatch e then s else log now could_not_read_funding s

-- The notes on how many outputs there are, and on a funding that is short.
unfoldable pub note_shape : ℤ → ℕ → Swap → Swap
unfolding log
note_shape now n s =
    let s' = if ltb 1 n then log now (several_outputs n) s else s in
    elim s'.funding [
      | none ↦ s'
      | some f ↦
          if ltb_ℤ f.value s'.amount_sats
          then log now (holds_too_little f.value s'.amount_sats) s'
          else s'
    ]

unfoldable pub mark_expired : ℤ → Swap → Swap
unfolding log
mark_expired now s = elim s.state [
  | funded ↦
      if leb_ℤ s.lock_time now then log now timelock_reached (record s { state = expired }) else s
  | _ ↦ s
]

unfoldable pub warn_no_destination : ℤ → Swap → Swap
unfolding note_once
warn_no_destination now s =
    if is_some s.funding && is_send s.leg && is_empty s.dest_addr
    then note_once now no_destination s
    else s

abbrev pub needs_binding : Option FundingOutput → Bool
needs_binding none = false
needs_binding (some f) = is_empty f.pk_script_hex

unfoldable pub note_unbound : ℤ → Option BindError × Swap → Swap
unfolding note_once
note_unbound now (none, s) = s
note_unbound now (some e, s) = note_once now no_binding s

-- Whether a refund is to be signed ahead.
abbrev pub wants_refund : Swap → Bool
wants_refund s = not (is_some s.refund_tx) && is_send s.leg && not (is_empty s.dest_addr)

unfoldable pub keep_refund : ℤ → Swap → Call SpendResult → Call Swap
unfolding log
keep_refund now s (done r) =
    done (log now (signed_refund r.tx_id r.fee s.lock_time) (record s { refund_tx = some r }))
keep_refund now s (fails _) = done (log now could_not_sign_refund s)
keep_refund now s panics = panics

module _ (p : Packages) (b : Backend) where
  unfoldable pub adopt_funding : ℤ → Network → ℕ → Utxo → Swap → Swap
  unfolding announce bind_funding note_unread note_shape
  adopt_funding now params n u s =
      let (e, bound) =
        bind_funding p.btcd b now params
          (record (announce now u s) { funding = some (funding_of u) }) in
      note_shape now n (note_unread now e bound)

  unfoldable pub scan_funding : ℤ → Network → Swap → Call Swap
  unfolding funding_is_open pick_funding adopt_funding
  scan_funding now params s =
      if not (funding_is_open s) then done s else elim (b.address_utxos s.contract_addr) [
        | none ↦ fails chain_failed
        | some utxos ↦ elim (pick_funding utxos s.amount_sats) [
          | none ↦ done s
          | some best ↦ done (
              if improves s.funding best then adopt_funding now params (length utxos) best s else s)
        ]
      ]

  unfoldable pub watch_binding : ℤ → Network → Swap → Swap
  unfolding bind_funding note_unbound
  watch_binding now params s =
      if needs_binding s.funding then note_unbound now (bind_funding p.btcd b now params s) else s

  -- With the funding of the record and the error of its binding.
  unfoldable pub sign_bound :
      ℤ → Network → Option FundingOutput → Option BindError → Swap → Call Swap
  unfolding build_refund keep_refund
  sign_bound now params none e s = done s
  sign_bound now params (some f) (some e) s = done s
  sign_bound now params (some f) none s = keep_refund now s (
      build_refund p.txscript p.btcd p.floats s.contract f s.key s.dest_addr
        (rate_or_fallback (b.fee_rate 6)) params)

  unfoldable pub sign_refund : ℤ → Network → Swap → Call Swap
  unfolding bind_funding sign_bound
  sign_refund now params s =
      let (e, bound) = bind_funding p.btcd b now params s in
      sign_bound now params bound.funding e bound

  unfoldable pub presign_refund : ℤ → Network → Swap → Call Swap
  unfolding sign_refund
  presign_refund now params s =
      if is_some s.funding && wants_refund s then sign_refund now params s else done s

  unfoldable pub read_spend : ℤ → FundingOutput → Outspend → Swap → Swap
  unfolding absorb_spend log
  read_spend now f o s =
      if o.spent && not (is_empty o.tx_id)
      then elim (absorb_spend p b now f o.tx_id s) [
        | none ↦ log now (could_not_read_spend o.tx_id) s
        | some s' ↦ s'
      ]
      else s

  unfoldable pub watch_output : ℤ → Option FundingOutput → Swap → Swap
  unfolding read_spend
  watch_output now none s = s
  watch_output now (some f) s =
      if is_spent s.state
      then s
      else elim (b.outspend_of f.tx_id f.vout) [ none ↦ s | some o ↦ read_spend now f o s ]

  unfoldable pub watch_spend : ℤ → Swap → Swap
  unfolding watch_output
  watch_spend now s = watch_output now s.funding s

  unfoldable pub keep_preimage : ℤ → Result SearchError Bytes → Swap → Swap
  unfolding note_once log
  keep_preimage now (err _) s = note_once now no_preimage_yet s
  keep_preimage now (ok secret) s =
      log now (recovered_preimage secret)
        (record s { secret = secret; zenon = record s.zenon { unlock_seen = true } })

  unfoldable pub watch_zenon : Option ZenonNode → ℤ → Swap → Swap
  unfolding secret_arrives_on_zenon unlock_payee find_preimage keep_preimage
  watch_zenon none now s = s
  watch_zenon (some z) now s =
      if secret_arrives_on_zenon s && is_empty s.secret
      then keep_preimage now
          (find_preimage p.sha256 p.base64 z.page_of z.block_of (unlock_payee s) s.secret_hash
            preimage_search_page_size preimage_search_pages)
          s
      else s

  -- Refresh between Load and Save, on a swap with a contract.
  unfoldable pub refreshed : Option ZenonNode → ℤ → Network → Swap → Call Swap
  unfolding scan_funding track_funding_depth watch_binding warn_no_destination presign_refund
      watch_spend watch_zenon mark_expired
  refreshed z now params s = do
    scanned ← scan_funding now params s
    let bound = watch_binding now params (track_funding_depth b scanned)
    signed ← presign_refund now params (warn_no_destination now bound)
    done (mark_expired now (watch_zenon z now (watch_spend now signed)))

  unfoldable pub refresh :
      Json
      → (Backing → Text → Text → Bool)
      → Text
      → Option ZenonNode
      → ℤ
      → Backing
      → Text
      → Call (Backing × Swap)
  unfolding load save network_params refreshed
  refresh j full prefix z now store id = do
    s ← of_store (load j full prefix now store id) not_loaded
    if is_empty s.contract then done (store, s) else do
      params ← or_fails (network_params s.network) unknown_network
      s' ← refreshed z now params s
      of_store (save j full prefix store s') not_saved
