-- ===== src/Watch/Bound.antt =====
-- wasm/manager.go: what a funding is that bindFunding has accepted.
use ferry_web.Prelude.{
  ◌≡◌, refl, sym, ap, subst, ◌∙◌, ◌⊎◌, inl, inr, true, false, Option, none, some, arith, Bool-cases,
  Option-cases, get_elem?, is_empty,
}
use ferry_web.Prelude.Int.{ℤ, eqb_ℤ, eq_of_parts}
use ferry_web.Prelude.Text.{Text, equal_fold}
use ferry_web.Prelude.Bytes.{Bytes}
use ferry_web.Prelude.Hex.{hex_encode}
use ferry_web.Prelude.Result.{Result, ok, err, ok_inj, guard-eq-ok, or_err-eq-ok}
use ferry_web.Swap.Record.{Swap, FundingOutput, Network}
use ferry_web.Swap.Commit.{binds_to}
use ferry_web.Bitcoin.Tx.{TxOut, Tx, Btcd, decode_raw_tx, contract_pk_script}
use ferry_web.Watch.Backend.{Backend}
use ferry_web.Watch.Bind.{
  BindError, fetch_failed, bad_raw, other_tx, no_such_output, other_value, funding_script,
  compare_binding, record_script, bind_read, bind_output, bind_funding,
}

-- The output is read off a transaction that the node served, which has the id of the funding.
pub record IsOutput (d : Btcd) (b : Backend) (f : FundingOutput) (script : Bytes) : Type 0 where
  pub raw : Text
  pub tx : Tx
  pub out : TxOut
  pub served : b.raw_tx f.tx_id ≡ some raw
  pub decoded : decode_raw_tx d raw ≡ some tx
  pub named : equal_fold (d.hash_string (d.tx_hash tx)) f.tx_id ≡ true
  pub listed : get_elem? tx.tx_out f.vout ≡ some out
  pub worth : out.value ≡ f.value
  pub pays : out.pk_script ≡ script

module _ (d : Btcd) (b : Backend) where
  funding_script-IsOutput :
      (f : FundingOutput) (script : Bytes)
      → funding_script d b f ≡ ok script
      → IsOutput d b f script
  unfolding funding_script
  funding_script-IsOutput f script e =
      let (raw, e1, e) = or_err-eq-ok (b.raw_tx f.tx_id) fetch_failed _ e in
      let (tx, e2, e) = or_err-eq-ok (decode_raw_tx d raw) bad_raw _ e in
      let (e3, e) = guard-eq-ok (equal_fold (d.hash_string (d.tx_hash tx)) f.tx_id) other_tx _ e in
      let (out, e4, e) = or_err-eq-ok (get_elem? tx.tx_out f.vout) no_such_output _ e in
      let (e5, e) = guard-eq-ok (eqb_ℤ out.value f.value) other_value _ e in
      record {
        raw = raw;
        tx = tx;
        out = out;
        served = e1;
        decoded = e2;
        named = e3;
        listed = e4;
        worth = eq_of_parts _ _ (ground arith);
        pays = ok_inj e;
      }

  compare_binding-none :
      (f : FundingOutput) (contract : Bytes) (params : Network)
      → compare_binding d b f contract params ≡ none
      → is_empty f.pk_script_hex ≡ false
      → (want : Bytes) × (contract_pk_script d contract params ≡ some want)
        × (equal_fold f.pk_script_hex (hex_encode want) ≡ true)
  unfolding compare_binding binds_to
  compare_binding-none f contract params h known =
      elim (Option-cases (contract_pk_script d contract params)) [
        | inl unknown ↦ cc (rw (known, unknown, compare_binding, binds_to) at h)
        | inr (want, is_want) ↦ elim (Bool-cases (equal_fold f.pk_script_hex (hex_encode want))) [
          | inl same ↦ (want, is_want, same)
          | inr other ↦ cc (rw (known, is_want, other, compare_binding, binds_to) at h)
        ]
      ]

  -- What a binding that gave no error leaves: the funding of before, with a script that is the contract's.
  pub record IsBound (params : Network) (s s' : Swap) (f : FundingOutput) : Type 0 where
    pub bound : FundingOutput
    pub same : bound ≡ record f { pk_script_hex = bound.pk_script_hex }
    pub recorded : s'.funding ≡ some bound
    pub known_or_read :
        ((is_empty f.pk_script_hex ≡ false) × (bound.pk_script_hex ≡ f.pk_script_hex))
        ⊎ ((is_empty f.pk_script_hex ≡ true)
            × (script : Bytes) × (bound.pk_script_hex ≡ hex_encode script)
            × IsOutput d b f script)
    pub want : Bytes
    pub pays_contract : contract_pk_script d s.contract params ≡ some want
    pub same_script : equal_fold bound.pk_script_hex (hex_encode want) ≡ true

  record_script-IsBound :
      (now : ℤ) (params : Network) (f : FundingOutput) (script : Bytes) (s s' : Swap)
      → is_empty f.pk_script_hex ≡ true
      → IsOutput d b f script
      → record_script d b now params f (hex_encode script) s ≡ (none, s')
      → IsBound params s s' f
  unfolding record_script
  record_script-IsBound now params f script s s' unread out e =
      elim (Option-cases (contract_pk_script d s.contract params)) [
        | inl unknown ↦ cc (rw (unknown, record_script) at e)
        | inr (want, known) ↦ elim (Bool-cases (equal_fold (hex_encode script) (hex_encode want))) [
          | inr other ↦ cc (rw (known, other, record_script) at e)
          | inl same ↦
              let f' : FundingOutput = record f { pk_script_hex = hex_encode script } in
              let e' = rw (known, same, record_script) at e in
              record {
                bound = f';
                same = refl;
                recorded = ap (λ (r : Option BindError × Swap). r.1.funding) (sym e');
                known_or_read = inr (unread, script, refl, out);
                want = want;
                pays_contract = known;
                same_script = same;
              }
        ]
      ]

  bind_read-IsBound :
      (now : ℤ) (params : Network) (f : FundingOutput) (r : Result BindError Bytes) (s s' : Swap)
      → is_empty f.pk_script_hex ≡ true
      → r ≡ funding_script d b f
      → bind_read d b now params f r s ≡ (none, s')
      → IsBound params s s' f
  unfolding bind_read
  bind_read-IsBound now params f (err x) s s' unread is_r e = cc e
  bind_read-IsBound now params f (ok script) s s' unread is_r e =
      record_script-IsBound now params f script s s' unread
        (funding_script-IsOutput f script (sym is_r)) e

  bind_output-IsBound :
      (now : ℤ) (params : Network) (f : FundingOutput) (s s' : Swap)
      → s.funding ≡ some f
      → bind_output d b now params (some f) s ≡ (none, s')
      → IsBound params s s' f
  unfolding bind_output
  bind_output-IsBound now params f s s' seen e = elim (Bool-cases (is_empty f.pk_script_hex)) [
    | inl unread ↦
        bind_read-IsBound now params f (funding_script d b f) s s' unread refl
          (rw (unread, bind_output) at e)
    | inr known ↦
        let e' = rw (known, bind_output) at e in
        let (want, is_want, same) =
          compare_binding-none f s.contract params (ap (λ (r : Option BindError × Swap). r.0) e')
            known in
        record {
          bound = f;
          same = refl;
          recorded = ap (λ (r : Option BindError × Swap). r.1.funding) (sym e') ∙ seen;
          known_or_read = inl (known, refl);
          want = want;
          pays_contract = is_want;
          same_script = same;
        }
  ]

  -- A funding that is bound without an error has a script that is, but for the case of its hex, the one that
  -- pays the contract of the record. Where the record had a script, that script is kept; where it had none, the
  -- script was read off the output of that number and value of a transaction that the node served, which
  -- has the id of the funding; nothing else of the funding changes.
  pub bind_funding-IsBound :
      (now : ℤ) (params : Network) (f : FundingOutput) (s s' : Swap)
      → s.funding ≡ some f
      → bind_funding d b now params s ≡ (none, s')
      → IsBound params s s' f
  unfolding bind_funding
  bind_funding-IsBound now params f s s' seen e =
      bind_output-IsBound now params f s s' seen
        (subst (λ o. bind_output d b now params o s ≡ (none, s')) seen e)
