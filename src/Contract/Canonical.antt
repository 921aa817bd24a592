-- ===== src/Contract/Canonical.antt =====
-- ParseContract against BuildContract.
use ferry_web.Prelude.Bytes.{Bytes}
use ferry_web.Contract.Script.{ScriptToken, token_of, Txscript, IsTxscript}
use ferry_web.Contract.Num.{
  ok, ◌>>=◌, ◌>>◌, guard, valid_lock_time, lock_time_threshold, max_lock_time, >>=-eq-ok,
  guard-eq-ok, not_canonical, template_mismatch,
}
use ferry_web.Contract.Build.{secret_size, contract_pieces, built, build_contract}
use ferry_web.Contract.Parse.{
  ContractDetails, contract_template, fits_template, read_tokens, read_terms, parse_contract,
}
use ferry_web.Contract.Numbers.{length-number-le, length-small-le, script_num-number}
use ferry_web.Prelude.Text.{text_eq, text_eq_iff}
use ferry_web.Prelude.{
  ℕ, ◌≤◌, ◌≡◌, refl, sym, ap, subst, ◌∙◌, true, false, some, List, map, arith, length,
}
use ferry_web.Prelude.Int.{ℤ, pos, negsuc, ◌≤ℤ◌}

-- What BuildContract asks of the terms.
pub record IsTerms (pkh_refund pkh_redeem : Bytes) (locktime : ℤ) (secret_hash : Bytes)
    : Type 0 where
  pub refund_size : length pkh_refund ≡ 20
  pub redeem_size : length pkh_redeem ≡ 20
  pub hash_size : length secret_hash ≡ 32
  pub above : pos lock_time_threshold ≤ℤ locktime
  pub below : locktime ≤ℤ pos max_lock_time

module _ (t : Txscript) where
  build_contract_inv :
      (pkh_refund pkh_redeem : Bytes) (locktime : ℤ) (secret_hash : Bytes) {s : Bytes}
      → build_contract t pkh_refund pkh_redeem locktime secret_hash ≡ ok s
      → IsTerms pkh_refund pkh_redeem locktime secret_hash
        × (t.script (contract_pieces pkh_refund pkh_redeem locktime secret_hash) ≡ some s)
  unfolding build_contract valid_lock_time
  build_contract_inv refund redeem locktime hash h = ground arith

  read_terms_inv :
      (ts : List ScriptToken) {d : ContractDetails}
      → read_terms ts ≡ ok d
      → (d.secret_size ≡ pos 32)
  unfolding read_terms
  read_terms_inv ts h = ground arith

  -- The rebuilt script is the one that was parsed.
  canonical_inv :
      (s : Bytes) (d : ContractDetails) {e : ContractDetails}
      → (do
        canonical ← build_contract t d.pkh_refund d.pkh_redeem d.lock_time d.secret_hash
        guard (text_eq s canonical) not_canonical
        ok d)
        ≡ ok e
      → (build_contract t d.pkh_refund d.pkh_redeem d.lock_time d.secret_hash ≡ ok s) × (d ≡ e)
  canonical_inv s d h =
      let (c, built, checked) =
        >>=-eq-ok (build_contract t d.pkh_refund d.pkh_redeem d.lock_time d.secret_hash) _ h in
      let (same, done) = guard-eq-ok (text_eq s c) not_canonical (ok d) checked in
      (built ∙ ap ok (sym ((text_eq_iff s c).0 same)), cc done)

  -- A successful parse, step by step.
  parse_contract_inv :
      (s : Bytes) {d : ContractDetails}
      → parse_contract t s ≡ ok d
      → (ts : List ScriptToken) × (read_tokens (t.tokens s) ≡ ok ts)
        × (fits_template contract_template ts ≡ true)
        × (read_terms ts ≡ ok d)
        × (build_contract t d.pkh_refund d.pkh_redeem d.lock_time d.secret_hash ≡ ok s)
  unfolding parse_contract
  parse_contract_inv s {d} h =
      let (ts, read, h1) = >>=-eq-ok (read_tokens (t.tokens s)) _ h in
      let (fit, h2) = guard-eq-ok (fits_template contract_template ts) template_mismatch _ h1 in
      let (e, terms, h3) = >>=-eq-ok (read_terms ts) _ h2 in
      let (same, is_d) = canonical_inv s e h3 in
      (
        ts,
        read,
        fit,
        terms ∙ ap ok is_d,
        subst (λ x. build_contract t x.pkh_refund x.pkh_redeem x.lock_time x.secret_hash ≡ ok s)
            is_d same,
      )

  -- A script that parses is the one that BuildContract makes of the parsed terms, and those terms
  -- have the sizes and the range that it asks for.
  pub parse_contract-build :
      (s : Bytes) {d : ContractDetails}
      → parse_contract t s ≡ ok d
      → (build_contract t d.pkh_refund d.pkh_redeem d.lock_time d.secret_hash ≡ ok s)
        × IsTerms d.pkh_refund d.pkh_redeem d.lock_time d.secret_hash
        × (d.secret_size ≡ pos secret_size)
  parse_contract-build s {d} h =
      let (ts, read, fit, terms, same) = parse_contract_inv s h in
      (
        same,
        (build_contract_inv d.pkh_refund d.pkh_redeem d.lock_time d.secret_hash same).0,
        read_terms_inv ts terms,
      )

  valid_lock_time_of :
      (n : ℕ) → lock_time_threshold ≤ n → n ≤ max_lock_time → valid_lock_time (pos n) ≡ ok tt
  unfolding valid_lock_time
  valid_lock_time_of n h k = ground arith

  module _ (law : IsTxscript t) where
    -- The tokens of a built contract are those of its pieces.
    tokens-contract :
        (refund redeem hash : Bytes) (n : ℕ) {s : Bytes}
        → IsTerms refund redeem (pos n) hash
        → t.script (contract_pieces refund redeem (pos n) hash) ≡ some s
        → t.tokens s ≡ record {
          read = map (token_of t) (contract_pieces refund redeem (pos n) hash);
          malformed = false;
        }
    tokens-contract refund redeem hash n {s} w h =
        law.reads (contract_pieces refund redeem (pos n) hash) s (omega arith) h

    -- The terms read off the tokens of a built contract are the terms that it was built from.
    read_terms-contract :
        (refund redeem hash : Bytes) (n : ℕ)
        → IsTerms refund redeem (pos n) hash
        → read_terms (map (token_of t) (contract_pieces refund redeem (pos n) hash))
          ≡ ok (record {
            secret_hash = hash;
            pkh_redeem = redeem;
            pkh_refund = refund;
            lock_time = pos n;
            secret_size = pos 32;
          })
    unfolding read_terms
    read_terms-contract refund redeem hash n w =
        let size = law.numbers 32 (omega arith) (omega arith) in
        let lock = law.numbers n (omega arith) (omega arith) in
        rw
          (script_num-number 32 (t.number 32) 4 size
            (length-small-le 32 (t.number 32) size (omega arith)))
          (rw
            (script_num-number n (t.number n) 5 lock
              (length-number-le n (t.number n) lock (omega arith)))
            (rw
              (
                w.hash_size,
                w.redeem_size,
                w.refund_size,
                valid_lock_time_of n (omega arith) (omega arith),
              )
              refl))

    -- A contract that was built parses, to the terms that it was built from.
    pub build_contract-parse :
        (refund redeem : Bytes) (locktime : ℤ) (hash s : Bytes)
        → build_contract t refund redeem locktime hash ≡ ok s
        → parse_contract t s
          ≡ ok (record {
            secret_hash = hash;
            pkh_redeem = redeem;
            pkh_refund = refund;
            lock_time = locktime;
            secret_size = pos secret_size;
          })
    unfolding parse_contract read_tokens fits_template
    build_contract-parse refund redeem (negsuc n) hash s h =
        absurd (omega (arith, (build_contract_inv refund redeem (negsuc n) hash h).0))
    build_contract-parse refund redeem (pos n) hash s h =
        let (w, made) = build_contract_inv refund redeem (pos n) hash h in
        rw (tokens-contract refund redeem hash n w made)
          (rw (read_terms-contract refund redeem hash n w) (rw (h) (rw ((text_eq_iff s s).1 refl))))
