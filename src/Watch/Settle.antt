-- ===== src/Watch/Settle.antt =====
-- wasm/manager.go: absorbSpend.
use ferry_web.Prelude.{
  Bool, false, ◌&&◌, ◌||◌, Option, none, some, List, [], ◌∷◌, map, ◌==◌, if◌then◌else◌, is_empty,
}
use ferry_web.Prelude.Int.{ℤ}
use ferry_web.Prelude.Text.{Text, text_eq}
use ferry_web.Prelude.Bytes.{Bytes}
use ferry_web.Contract.Secret.{extract_secret}
use ferry_web.Swap.Record.{
  Swap, FundingOutput, redeemed, refunded, learned_secret, was_redeemed, was_refunded, log,
}
use ferry_web.Bitcoin.Tx.{TxIn, Btcd, decode_raw_tx}
use ferry_web.Watch.Backend.{Backend, Packages}

unfoldable pub spends : Btcd → FundingOutput → List TxIn → Bool
unfolding text_eq
spends d f [] = false
spends d f (i ∷ is) =
    (i.prev_index == f.vout && text_eq (d.hash_string i.prev_hash) f.tx_id) || spends d f is

abbrev pub sig_script : TxIn → Bytes
sig_script i = i.signature_script

-- The secret, where it is not known yet.
unfoldable pub learn : ℤ → Text → Bytes → Swap → Swap
unfolding log
learn now txid secret s =
    if is_empty s.secret
    then log now (learned_secret txid secret) (record s { secret = secret })
    else s

unfoldable pub settle : ℤ → Text → Option Bytes → Swap → Swap
unfolding learn log
settle now txid none s = log now (was_refunded txid) (record s { state = refunded })
settle now txid (some secret) s =
    log now (was_redeemed txid) (record (learn now txid secret s) { state = redeemed })

module _ (p : Packages) (b : Backend) where
  -- `none` is an error: the transaction cannot be read, or does not spend the funding.
  unfoldable pub absorb_spend : ℤ → FundingOutput → Text → Swap → Option Swap
  unfolding decode_raw_tx spends settle extract_secret
  absorb_spend now f txid s = elim (b.raw_tx txid) [
    | none ↦ none
    | some raw_hex ↦ elim (decode_raw_tx p.btcd raw_hex) [
      | none ↦ none
      | some tx ↦
          if spends p.btcd f tx.tx_in
          then some (
              settle now txid
                (extract_secret p.sha256 p.pushed_data (map sig_script tx.tx_in) s.secret_hash) s)
          else none
    ]
  ]
