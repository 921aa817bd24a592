-- ===== src/Bitcoin/Spend.antt =====
-- wasm/txbuild.go: BuildRedeem, BuildRefund and buildSpend.
use ferry_web.Prelude.{
  ℕ, suc, ◌-◌, ◌%◌, not, ◌&&◌, Option, none, some, [], ◌∷◌, map, ◌==◌, length, replicate,
}
use ferry_web.Prelude.Int.{ℤ, pos, negsuc, ltb_ℤ}
use ferry_web.Prelude.Int64.{sub64}
use ferry_web.Prelude.Text.{Text, text_eq}
use ferry_web.Prelude.Int64.{sub64}
use ferry_web.Prelude.Bytes.{Bytes}
use ferry_web.Prelude.Hex.{hex_encode}
use ferry_web.Contract.Script.{Txscript}
use ferry_web.Contract.Build.{secret_size, redeem_sig_script, refund_sig_script}
use ferry_web.Contract.Parse.{parse_contract}
use ferry_web.Swap.Record.{Network, SwapKey, FundingOutput, SpendResult}
use ferry_web.Swap.Commit.{binds_to}
use ferry_web.Swap.Build.{
  Call, done, panics, ◌>>=◌, ◌>>◌, check, or_fails, of_contract, wrong_redeem_key, wrong_refund_key,
  bad_secret_size, wrong_secret, no_value, bad_rate, rate_too_high, bad_address, bad_tx_id,
  not_bound, dust, cannot_sign, script_failed, script_rejected, no_address,
}
use ferry_web.Bitcoin.Rate.{Float64, Floats, zero_rate, max_fee_rate, fee_for}
use ferry_web.Bitcoin.Tx.{TxIn, Tx, Btcd, contract_pk_script, address_script, mempool_vsize}

abbrev pub dust_limit : ℤ
dust_limit = pos 546

-- uint32(locktime).
abbrev pub u32 : ℤ → ℕ
u32 (pos n) = n % 4294967296
u32 (negsuc n) = (4294967296 - suc n % 4294967296) % 4294967296

-- The transaction with one input and one output, before it is signed.
abbrev pub unsigned_spend : Bytes → ℕ → Bytes → ℤ → ℤ → Tx
unsigned_spend prev vout dest_script value locktime = record {
  version = 2;
  tx_in = record { prev_hash = prev; prev_index = vout; signature_script = []; sequence = 0 } ∷ [];
  tx_out = record { value = value; pk_script = dest_script } ∷ [];
  lock_time = u32 locktime;
}

abbrev pub with_script : Bytes → TxIn → TxIn
with_script script i = record i { signature_script = script }

abbrev pub signed_by : Bytes → Tx → Tx
signed_by script tx = record tx { tx_in = map (with_script script) tx.tx_in }

-- The hash of an outpoint that is not set.
abbrev zero_hash : Bytes
zero_hash = replicate 32 0

-- A key that is nil is dereferenced.
abbrev pub deref : Option SwapKey → Call SwapKey
deref none = panics
deref (some key) = done key

module _ (t : Txscript) where
  unfoldable pub branch_sig_script : Bytes → Bytes → Bytes → Option Bytes → Option Bytes
  unfolding redeem_sig_script refund_sig_script
  branch_sig_script contract sig pub_key (some secret) =
      redeem_sig_script t contract sig pub_key secret
  branch_sig_script contract sig pub_key none = refund_sig_script t contract sig pub_key

  module _ (d : Btcd) where
    unfoldable pub spend_vsize : Bytes → Bytes → Option Bytes → ℤ → Option ℕ
    unfolding branch_sig_script mempool_vsize
    spend_vsize contract dest_script secret locktime =
        elim (branch_sig_script contract (replicate 73 0) (replicate 33 0) secret) [
          | none ↦ none
          | some script ↦ some (
              mempool_vsize d
                (signed_by script (unsigned_spend zero_hash 0 dest_script (pos 0) locktime)))
        ]

    module _ (f : Floats) where
      unfoldable pub build_spend :
          Bytes
          → FundingOutput
          → SwapKey
          → Option Bytes
          → Text
          → Float64
          → Network
          → ℤ
          → Call SpendResult
      unfolding address_script contract_pk_script binds_to spend_vsize fee_for sub64 hex_encode
      build_spend contract funding key secret dest rate params locktime = do
        check (ltb_ℤ (pos 0) funding.value) no_value
        check (f.lt zero_rate rate && not (f.is_inf rate)) bad_rate
        check (not (f.lt max_fee_rate rate)) rate_too_high
        dest_script ← or_fails (address_script d dest params) bad_address
        prev ← or_fails (d.hash_from_str funding.tx_id) bad_tx_id
        pk_script ← or_fails (contract_pk_script d contract params) no_address
        bound ← or_fails (binds_to (contract_pk_script d) funding contract params) no_address
        check bound not_bound
        vsize ← or_fails (spend_vsize contract dest_script secret locktime) script_failed
        let fee = fee_for f rate vsize
        let value = sub64 funding.value fee
        check (not (ltb_ℤ value dust_limit)) dust
        let tx = unsigned_spend prev funding.vout dest_script value locktime
        sig ← or_fails (d.sign tx contract key.priv) cannot_sign
        script ← or_fails (branch_sig_script contract sig key.pub_key secret) script_failed
        let signed = signed_by script tx
        check (d.executes pk_script funding.value signed) script_rejected
        done (record {
          raw_hex = hex_encode (d.serialize signed);
          tx_id = d.hash_string (d.tx_hash signed);
          fee = fee;
          vsize = pos vsize;
          value = value;
        })

      unfoldable pub build_redeem :
          (Bytes → Bytes)
          → Bytes
          → FundingOutput
          → Option SwapKey
          → Bytes
          → Text
          → Float64
          → Network
          → Call SpendResult
      unfolding parse_contract build_spend text_eq
      build_redeem sha256 contract funding key secret dest rate params = do
        details ← of_contract (parse_contract t contract)
        k ← deref key
        check (text_eq details.pkh_redeem k.pkh) wrong_redeem_key
        check (length secret == secret_size) bad_secret_size
        check (text_eq (sha256 secret) details.secret_hash) wrong_secret
        build_spend contract funding k (some secret) dest rate params (pos 0)

      unfoldable pub build_refund :
          Bytes → FundingOutput → Option SwapKey → Text → Float64 → Network → Call SpendResult
      unfolding parse_contract build_spend text_eq
      build_refund contract funding key dest rate params = do
        details ← of_contract (parse_contract t contract)
        k ← deref key
        check (text_eq details.pkh_refund k.pkh) wrong_refund_key
        build_spend contract funding k none dest rate params details.lock_time
