-- ===== src/Outcome/Fields.antt =====
-- wasm/manager.go: SetSecret, Archive and RecordFundingBroadcast.
use ferry_web.Prelude.{Bool, true, false, not, none, some, ◌==◌, if◌then◌else◌, length}
use ferry_web.Prelude.Int.{ℤ}
use ferry_web.Prelude.Text.{Text, text_eq, trim_space}
use ferry_web.Prelude.Bytes.{Bytes}
use ferry_web.Prelude.Hex.{hex_decode}
use ferry_web.Contract.Build.{secret_size}
use ferry_web.Swap.Record.{Swap, is_send, log, secret_supplied, filed_away, sent_funding}
use ferry_web.Swap.Build.{
  Call, done, ◌>>=◌, ◌>>◌, check, or_fails, bad_hex, bad_secret_size, wrong_secret, wrong_side,
  not_a_tx_id, not_loaded, not_saved,
}
use ferry_web.Store.Records.{Backing, Json, load, save}
use ferry_web.Watch.Backend.{valid_tx_id}
use ferry_web.Watch.Poll.{of_store}

-- sw.FundingBroadcast != nil && sw.FundingBroadcast.TxID == txid
unfoldable pub reported : Text → Swap → Bool
unfolding text_eq
reported txid s = elim s.funding_broadcast [ none ↦ false | some f ↦ text_eq f.tx_id txid ]

abbrev pub same_bool : Bool → Bool → Bool
same_bool true c = c
same_bool false c = not c

module _ (j : Json) (full : Backing → Text → Text → Bool) (prefix : Text) where
  unfoldable pub set_secret : (Bytes → Bytes) → ℤ → Backing → Text → Text → Call (Backing × Swap)
  unfolding load save hex_decode trim_space text_eq log
  set_secret sha256 now store id secret_hex = do
    s ← of_store (load j full prefix now store id) not_loaded
    secret ← or_fails (hex_decode (trim_space secret_hex)) bad_hex
    check (length secret == secret_size) bad_secret_size
    check (text_eq (sha256 secret) s.secret_hash) wrong_secret
    of_store (save j full prefix store (log now secret_supplied (record s { secret = secret })))
        not_saved

  unfoldable pub archive : ℤ → Backing → Text → Bool → Call (Backing × Swap)
  unfolding load save log
  archive now store id archived = do
    s ← of_store (load j full prefix now store id) not_loaded
    if same_bool s.archived archived
        then done (store, s)
        else of_store
            (save j full prefix store
              (log now (filed_away archived) (record s { archived = archived })))
            not_saved

  unfoldable pub record_funding_broadcast : ℤ → Backing → Text → Text → Call (Backing × Swap)
  unfolding load save log trim_space valid_tx_id reported
  record_funding_broadcast now store id txid = do
    s ← of_store (load j full prefix now store id) not_loaded
    let txid' = trim_space txid
    check (valid_tx_id txid') not_a_tx_id
    check (is_send s.leg) wrong_side
    if reported txid' s
        then done (store, s)
        else of_store
            (save j full prefix store (
              log now (sent_funding txid')
                (record s { funding_broadcast = some (record { tx_id = txid'; at = now }) })))
            not_saved
