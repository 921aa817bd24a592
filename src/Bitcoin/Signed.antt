-- ===== src/Bitcoin/Signed.antt =====
-- wasm/txbuild.go: what a transaction is that BuildRedeem or BuildRefund gives.
use ferry_web.Prelude.{
  ◌≡◌, refl, ap, subst, ◌∙◌, true, not, ◌&&◌, Option, none, some, arith, ◌==◌, ==_iff, length, [],
  ◌∷◌,
}
use ferry_web.Prelude.Int.{ℤ, pos, ◌≤ℤ◌, ◌<ℤ◌, ltb_ℤ}
use ferry_web.Prelude.Int64.{sub64}
use ferry_web.Prelude.Text.{Text, text_eq, text_eq_iff}
use ferry_web.Prelude.Int64.{sub64}
use ferry_web.Prelude.Bytes.{Bytes}
use ferry_web.Prelude.Hex.{hex_encode}
use ferry_web.Contract.Script.{Txscript, push, int64}
use ferry_web.Contract.Build.{redeem_sig_script, refund_sig_script}
use ferry_web.Contract.Num
use ferry_web.Contract.Parse.{ContractDetails, parse_contract}
use ferry_web.Swap.Record.{Network, SwapKey, FundingOutput, SpendResult}
use ferry_web.Swap.Commit.{binds_to}
use ferry_web.Swap.Build.{
  done, check-then, or_fails-then, call-then, contract-then, done_inj, wrong_redeem_key,
  wrong_refund_key, bad_secret_size, wrong_secret, no_value, bad_rate, rate_too_high, bad_address,
  bad_tx_id, not_bound, dust, cannot_sign, script_failed, script_rejected, no_address,
}
use ferry_web.Bitcoin.Rate.{Float64, Floats, zero_rate, max_fee_rate, fee_for}
use ferry_web.Bitcoin.Tx.{Tx, Btcd, contract_pk_script, address_script}
use ferry_web.Bitcoin.Spend.{
  dust_limit, u32, unsigned_spend, signed_by, deref, branch_sig_script, spend_vsize, build_spend,
  build_redeem, build_refund,
}

-- The script that takes the redeem branch, and the one that takes the refund branch, on a signature.
abbrev pub redeem_opening : Txscript → Bytes → Bytes → Bytes → Bytes → Option Bytes
redeem_opening t contract pub_key secret sig =
    t.script (push sig ∷ push pub_key ∷ push secret ∷ int64 (pos 1) ∷ push contract ∷ [])

abbrev pub refund_opening : Txscript → Bytes → Bytes → Bytes → Option Bytes
refund_opening t contract pub_key sig =
    t.script (push sig ∷ push pub_key ∷ int64 (pos 0) ∷ push contract ∷ [])

-- A signed spend of the contract's output: one input, one output, accepted by the script engine.
pub record IsSpend (d : Btcd) (contract : Bytes) (funding : FundingOutput) (key : SwapKey)
    (opening : Bytes → Option Bytes) (dest : Text) (params : Network) (locktime : ℤ)
    (r : SpendResult) : Type 0 where
  pub prev : Bytes
  pub outpoint : d.hash_from_str funding.tx_id ≡ some prev
  pub dest_script : Bytes
  pub destination : address_script d dest params ≡ some dest_script
  pub pk_script : Bytes
  pub pays_contract : contract_pk_script d contract params ≡ some pk_script
  pub bound : binds_to (contract_pk_script d) funding contract params ≡ some true
  pub sig : Bytes
  pub signed :
      d.sign (unsigned_spend prev funding.vout dest_script r.value locktime) contract key.priv
      ≡ some sig
  pub script : Bytes
  pub opens : opening sig ≡ some script
  pub tx : Tx
  pub is_tx : tx ≡ record {
    version = 2;
    tx_in =
        record {
          prev_hash = prev;
          prev_index = funding.vout;
          signature_script = script;
          sequence = 0;
        }
        ∷ [];
    tx_out = record { value = r.value; pk_script = dest_script } ∷ [];
    lock_time = u32 locktime;
  }
  pub accepted : d.executes pk_script funding.value tx ≡ true
  pub published :
      (r.raw_hex ≡ hex_encode (d.serialize tx)) × (r.tx_id ≡ d.hash_string (d.tx_hash tx))
  pub has_value : pos 0 <ℤ funding.value
  pub fee_taken : r.value ≡ sub64 funding.value r.fee
  pub relayed : pos 546 ≤ℤ r.value

deref-done : (key : Option SwapKey) (k : SwapKey) → deref key ≡ done k → key ≡ some k
deref-done none k e = cc e
deref-done (some key) k e = ap some (done_inj e)

module _ (t : Txscript) (d : Btcd) (f : Floats) where
  build_spend-IsSpend :
      (contract : Bytes) (funding : FundingOutput) (key : SwapKey) (secret : Option Bytes)
      (dest : Text) (rate : Float64) (params : Network) (locktime : ℤ) (r : SpendResult)
      → build_spend t d f contract funding key secret dest rate params locktime ≡ done r
      → IsSpend d contract funding key
          (λ sig. branch_sig_script t contract sig key.pub_key secret)
          dest
          params
          locktime
          r
  unfolding build_spend
  build_spend-IsSpend contract funding key secret dest rate params locktime r e =
      check-then (ltb_ℤ (pos 0) funding.value) no_value _ e λ positive e.
        check-then (f.lt zero_rate rate && not (f.is_inf rate)) bad_rate _ e λ _ e.
          check-then (not (f.lt max_fee_rate rate)) rate_too_high _ e λ _ e.
            or_fails-then (address_script d dest params) bad_address _ e λ dest_script to e.
              or_fails-then (d.hash_from_str funding.tx_id) bad_tx_id _ e λ prev from e.
                or_fails-then (contract_pk_script d contract params) no_address _ e λ pk paid e.
                  or_fails-then (binds_to (contract_pk_script d) funding contract params) no_address
                    _ e
                    λ bound said e. check-then bound not_bound _ e λ is_bound e.
                      or_fails-then (spend_vsize t d contract dest_script secret locktime)
                        script_failed _ e
                        λ size sized e.
                          let value = sub64 funding.value (fee_for f rate size) in
                          let tx = unsigned_spend prev funding.vout dest_script value locktime in
                          check-then (not (ltb_ℤ value dust_limit)) dust _ e λ big e.
                            or_fails-then (d.sign tx contract key.priv) cannot_sign _ e
                              λ sig signed e.
                                or_fails-then (branch_sig_script t contract sig key.pub_key secret)
                                  script_failed _ e
                                  λ script made e.
                                    check-then (d.executes pk funding.value (signed_by script tx))
                                      script_rejected _ e
                                      λ runs e.
                                        subst
                                          (λ r.
                                            IsSpend d contract funding key
                                              (λ sig.
                                                branch_sig_script t contract sig key.pub_key secret)
                                              dest params locktime r)
                                          (done_inj e)
                                          (record {
                                            prev = prev;
                                            outpoint = from;
                                            dest_script = dest_script;
                                            destination = to;
                                            pk_script = pk;
                                            pays_contract = paid;
                                            bound = said ∙ ap some is_bound;
                                            sig = sig;
                                            signed = signed;
                                            script = script;
                                            opens = made;
                                            tx = signed_by script tx;
                                            is_tx = refl;
                                            accepted = runs;
                                            published = (refl, refl);
                                            has_value = ground arith;
                                            fee_taken = refl;
                                            relayed = ground arith;
                                          })

  -- A redeem that was built spends the funding output, and nothing else, to the one destination. The
  -- secret in it is the contract's, the key is the one that the contract names, and the signed
  -- transaction has run against the contract's own script; what it pays is the value less the fee.
  pub build_redeem-IsSpend :
      (sha256 : Bytes → Bytes) (contract : Bytes) (funding : FundingOutput) (key : Option SwapKey)
      (secret : Bytes) (dest : Text) (rate : Float64) (params : Network) (r : SpendResult)
      → build_redeem t d f sha256 contract funding key secret dest rate params ≡ done r
      → (details : ContractDetails) × (k : SwapKey) × (parse_contract t contract ≡ Num.ok details)
        × (key ≡ some k)
        × (details.pkh_redeem ≡ k.pkh)
        × (sha256 secret ≡ details.secret_hash)
        × (length secret ≡ 32)
        × IsSpend d contract funding k
            (redeem_opening t contract k.pub_key secret)
            dest
            params
            (pos 0)
            r
  unfolding build_redeem branch_sig_script redeem_sig_script
  build_redeem-IsSpend sha256 contract funding key secret dest rate params r e =
      contract-then (parse_contract t contract) _ e λ details read e.
        call-then (deref key) _ e λ k given e.
          check-then (text_eq details.pkh_redeem k.pkh) wrong_redeem_key _ e λ same e.
            check-then (length secret == 32) bad_secret_size _ e λ sized e.
              check-then (text_eq (sha256 secret) details.secret_hash) wrong_secret _ e λ hashes e.
                (
                  details,
                  k,
                  read,
                  deref-done key k given,
                  (text_eq_iff _ _).0 same,
                  (text_eq_iff _ _).0 hashes,
                  (==_iff _ _).0 sized,
                  build_spend-IsSpend contract funding k (some secret) dest rate params (pos 0) r e,
                )

  -- A refund that was built spends the funding output, and nothing else, to the one destination, with the
  -- contract's own locktime and the key that the contract names for it.
  pub build_refund-IsSpend :
      (contract : Bytes) (funding : FundingOutput) (key : Option SwapKey) (dest : Text)
      (rate : Float64) (params : Network) (r : SpendResult)
      → build_refund t d f contract funding key dest rate params ≡ done r
      → (details : ContractDetails) × (k : SwapKey) × (parse_contract t contract ≡ Num.ok details)
        × (key ≡ some k)
        × (details.pkh_refund ≡ k.pkh)
        × IsSpend d contract funding k
            (refund_opening t contract k.pub_key)
            dest
            params
            details.lock_time
            r
  unfolding build_refund branch_sig_script refund_sig_script
  build_refund-IsSpend contract funding key dest rate params r e =
      contract-then (parse_contract t contract) _ e λ details read e.
        call-then (deref key) _ e λ k given e.
          check-then (text_eq details.pkh_refund k.pkh) wrong_refund_key _ e λ same e. (
            details,
            k,
            read,
            deref-done key k given,
            (text_eq_iff _ _).0 same,
            build_spend-IsSpend contract funding k none dest rate params details.lock_time r e,
          )
