-- ===== src/Manager/Fill.antt =====
-- wasm/manager.go: SetZenonTerms. Without a Zenon node, `z` is none.
use ferry_web.Prelude.{Bool, true, false, not, ◌||◌, Option, [], if◌then◌else◌, is_empty, is_some}
use ferry_web.Prelude.Int.{ℤ}
use ferry_web.Prelude.Text.{Text, trim_space, equal_fold}
use ferry_web.Prelude.Result.{Result, ok, err}
use ferry_web.Swap.Record.{Swap, ZenonLeg, log, term_set, terms_changed}
use ferry_web.Swap.Terms.{zero_amount, agreed_token}
use ferry_web.Swap.Build.{
  SwapError, Call, done, fails, ◌>>=◌, ◌>>◌, check, or_fails, term_is_fixed, bad_zenon_address,
  bad_zenon_amount, zero_zenon_amount, no_zenon_node, unreadable_token, imprecise_amount,
  not_loaded, not_saved,
}
use ferry_web.Store.Records.{Backing, Json, load, save}
use ferry_web.Watch.Poll.{of_store}
use ferry_web.Zenon.Address.{Bech32, parse_address}
use ferry_web.Zenon.Amount.{canonical_zenon_amount, decimal_to_base_units}
use ferry_web.Zenon.Rpc.{ZenonRpc, get_token}
use ferry_web.Swap.Decode.{is_ok}
use ferry_web.Ledger.Preimage.{NodeError}

-- The value that a field has then, and whether that is new.
abbrev pub set_term : Text → Text → Call (Unit {0}) → Call (Text × Bool)
set_term current value valid =
    if is_empty value || equal_fold current value
    then done (current, false)
    else if not (is_empty current)
    then fails term_is_fixed
    else valid >> done (value, true)

abbrev pub of_node : {A : Type 0} → Result NodeError A → SwapError → Call A
of_node (ok a) e = done a
of_node (err _) e = fails e

abbrev pub log_if : Bool → Text → ℤ → Swap → Swap
log_if changed name now s = if changed then log now (term_set name) s else s

-- A recorded zero is no amount.
unfoldable pub without_zero : Swap → Swap
unfolding zero_amount trim_space
without_zero s =
    if zero_amount (trim_space s.zenon.amount_display)
    then record s { zenon = record s.zenon { amount_display = [] } }
    else s

-- The leg with its verdict reset.
unfoldable pub reset_verdict : ℤ → Swap → Swap
unfolding log
reset_verdict now s =
    if is_empty s.zenon.htlc_id
    then s
    else log now (terms_changed s.zenon.htlc_id) (record s {
      zenon = record s.zenon { verified = false; verify_error = []; verify_pending = false };
    })

abbrev pub with_terms : Swap → Text → Text → Text → Swap
with_terms s self peer amount = record s {
  zenon = record s.zenon { self_address = self; peer_address = peer; amount_display = amount };
}

module _ (b : Bech32) (z : Option ZenonRpc) where
  unfoldable pub is_address : Text → Call (Unit {0})
  unfolding parse_address
  is_address v = check (is_ok (parse_address b v)) bad_zenon_address

  unfoldable pub is_amount : ZenonLeg → Text → Call (Unit {0})
  unfolding canonical_zenon_amount zero_amount get_token agreed_token decimal_to_base_units
  is_amount leg v = do
    check (canonical_zenon_amount v) bad_zenon_amount
    check (not (zero_amount v)) zero_zenon_amount
    node ← or_fails z no_zenon_node
    tok ← of_node (get_token node (agreed_token leg)) unreadable_token
    check (is_some (decimal_to_base_units v tok.decimals)) imprecise_amount

  -- The record with the terms filled in, and whether one of them is new.
  unfoldable pub fill_terms : ℤ → Swap → Text → Text → Text → Call (Swap × Bool)
  unfolding is_address is_amount reset_verdict log
  fill_terms now s self peer amount = do
    (self', c1) ← set_term s.zenon.self_address self (is_address self)
    (peer', c2) ← set_term s.zenon.peer_address peer (is_address peer)
    (amount', c3) ← set_term s.zenon.amount_display amount (is_amount s.zenon amount)
    let filled =
        log_if c3 amount' now
          (log_if c2 peer' now (log_if c1 self' now (with_terms s self' peer' amount')))
    if c1 || c2 || c3 then done (reset_verdict now filled, true) else done (filled, false)

  unfoldable pub set_zenon_terms :
      Json
      → (Backing → Text → Text → Bool)
      → Text
      → ℤ
      → Backing
      → Text
      → Text
      → Text
      → Text
      → Call (Backing × Swap)
  unfolding load save without_zero fill_terms trim_space
  set_zenon_terms j full prefix now store id self peer amount = do
    s ← of_store (load j full prefix now store id) not_loaded
    (s', changed) ←
        fill_terms now (without_zero s) (trim_space self) (trim_space peer) (trim_space amount)
    if changed then of_store (save j full prefix store s') not_saved else done (store, s')
