-- ===== src/Contract/Panics.antt =====
-- Where ParseContract goes out of range instead of refusing.
use ferry_web.Prelude.Bytes.{Bytes}
use ferry_web.Contract.Script.{ScriptToken, Txscript}
use ferry_web.Contract.Num.{
  ok, panic, ◌>>=◌, ◌>>◌, guard, script_num, valid_lock_time, >>=-eq-panic, guard-eq-panic,
  not_canonical, template_mismatch, wrong_secret_size, secret_hash_size, redeem_pkh_size,
  refund_pkh_size,
}
use ferry_web.Contract.Build.{secret_size, sha256_size, build_contract}
use ferry_web.Contract.Parse.{
  ContractDetails, contract_template, max_script_num_len, max_cltv_script_num_len, fits_template,
  read_tokens, read_terms, token_at, data_of, parse_contract,
}
use ferry_web.Contract.Numbers.{IsEmptyPush, script_num-panics}
use ferry_web.Prelude.Text.{text_eq}
use ferry_web.Prelude.{◌≡◌, ap, ◌∙◌, ◌≢◌, ◌↔◌, ◌⊎◌, inl, inr, Bool, true, List, arith, ◌==◌, length}
use ferry_web.Prelude.Int.{ℤ, pos, eqb_ℤ, eq_of_parts}

-- The two places where the terms of a script can make the parser panic.
abbrev pub PanicsAt : List ScriptToken → Type 0
PanicsAt ts =
    IsEmptyPush (token_at ts 2)
    ⊎ ((script_num (token_at ts 2) max_script_num_len ≡ ok (pos 32))
        × (length (data_of (token_at ts 5).bytes) ≡ 32)
        × (length (data_of (token_at ts 9).bytes) ≡ 20)
        × IsEmptyPush (token_at ts 11))

lock_time-total : (z : ℤ) → valid_lock_time z ≢ panic
unfolding valid_lock_time
lock_time-total z h = ground arith

-- Behind the locktime nothing panics.
after :
    (ts : List ScriptToken) (k : ℤ → ContractDetails)
    → (do
      locktime ← script_num (token_at ts 11) max_cltv_script_num_len
      valid_lock_time locktime
      guard (length (data_of (token_at ts 16).bytes) == 20) refund_pkh_size
      ok (k locktime))
      ≡ panic
    → IsEmptyPush (token_at ts 11)
after ts k h = elim (>>=-eq-panic (script_num (token_at ts 11) max_cltv_script_num_len) _ h) [
  | inl p ↦ (script_num-panics (token_at ts 11) max_cltv_script_num_len).0 p
  | inr (z, e, h1) ↦ elim (>>=-eq-panic (valid_lock_time z) _ h1) [
    | inl p ↦ absurd (lock_time-total z p)
    | inr (u, e', h2) ↦ cc (
        (guard-eq-panic (length (data_of (token_at ts 16).bytes) == 20) refund_pkh_size (ok (k z))
          h2).1)
  ]
]

read_terms-panics : (ts : List ScriptToken) → read_terms ts ≡ panic → PanicsAt ts
unfolding read_terms
read_terms-panics ts h = elim (>>=-eq-panic (script_num (token_at ts 2) max_script_num_len) _ h) [
  | inl p ↦ inl ((script_num-panics (token_at ts 2) max_script_num_len).0 p)
  | inr (size, e, h1) ↦
      let (is_size, h2) = guard-eq-panic (eqb_ℤ size (pos secret_size)) wrong_secret_size _ h1 in
      let (hash, h3) =
        guard-eq-panic (length (data_of (token_at ts 5).bytes) == sha256_size) secret_hash_size _
          h2 in
      let (redeem, h4) =
        guard-eq-panic (length (data_of (token_at ts 9).bytes) == 20) redeem_pkh_size _ h3 in
      inr (
        e ∙ ap ok (eq_of_parts size (pos 32) (ground arith)),
        ground arith,
        ground arith,
        after ts _ h4,
      )
]

read_tokens-total :
    (ts : List ScriptToken) (m : Bool) → read_tokens (record { read = ts; malformed = m }) ≢ panic
unfolding read_tokens
read_tokens-total ts m h = ground arith

PanicsAt-read_terms : (ts : List ScriptToken) → PanicsAt ts → read_terms ts ≡ panic
unfolding read_terms
PanicsAt-read_terms ts (inl h) = rw ((script_num-panics (token_at ts 2) max_script_num_len).1 h)
PanicsAt-read_terms ts (inr (size, hash, redeem, h)) =
    rw size
      (rw (hash, redeem) (rw ((script_num-panics (token_at ts 11) max_cltv_script_num_len).1 h)))

module _ (t : Txscript) where
  build_contract-total :
      (refund redeem : Bytes) (z : ℤ) (hash : Bytes) → build_contract t refund redeem z hash ≢ panic
  unfolding build_contract valid_lock_time
  build_contract-total refund redeem z hash h = ground arith

  canonical-total :
      (s : Bytes) (d : ContractDetails)
      → (do
        canonical ← build_contract t d.pkh_refund d.pkh_redeem d.lock_time d.secret_hash
        guard (text_eq s canonical) not_canonical
        ok d)
        ≢ panic
  canonical-total s d h =
      elim (>>=-eq-panic (build_contract t d.pkh_refund d.pkh_redeem d.lock_time d.secret_hash) _
        h) [
          | inl p ↦ build_contract-total d.pkh_refund d.pkh_redeem d.lock_time d.secret_hash p
          | inr (c, e, h1) ↦ cc ((guard-eq-panic (text_eq s c) not_canonical (ok d) h1).1)
        ]

  parse_panics :
      (s : Bytes)
      → parse_contract t s ≡ panic
      → (ts : List ScriptToken) × (read_tokens (t.tokens s) ≡ ok ts)
        × (fits_template contract_template ts ≡ true)
        × PanicsAt ts
  unfolding parse_contract
  parse_panics s h = elim (>>=-eq-panic (read_tokens (t.tokens s)) _ h) [
    | inl p ↦ absurd (read_tokens-total (t.tokens s).read (t.tokens s).malformed p)
    | inr (ts, e, h1) ↦
        let (fit, h2) =
          guard-eq-panic (fits_template contract_template ts) template_mismatch _ h1 in
        (
          ts,
          e,
          fit,
          elim (>>=-eq-panic (read_terms ts) _ h2) [
            | inl p ↦ read_terms-panics ts p
            | inr (d, e', h3) ↦ absurd (canonical-total s d h3)
          ],
        )
  ]

  panics_parse :
      (s : Bytes) (ts : List ScriptToken)
      → read_tokens (t.tokens s) ≡ ok ts
      → fits_template contract_template ts ≡ true
      → PanicsAt ts
      → parse_contract t s ≡ panic
  unfolding parse_contract
  panics_parse s ts e fit h = rw e (rw (fit) (rw (PanicsAt-read_terms ts h)))

  -- The parser panics exactly on a script of the template's length whose fixed opcodes match and
  -- that carries, as its secret size, or as its locktime behind a right size, hash and redeem pubkey
  -- hash, a push of no bytes by an opcode that is not itself a number.
  pub parse_contract-panics :
      (s : Bytes)
      → (parse_contract t s ≡ panic) ↔ (
          (ts : List ScriptToken) × (read_tokens (t.tokens s) ≡ ok ts)
          × (fits_template contract_template ts ≡ true)
          × PanicsAt ts)
  parse_contract-panics s = (parse_panics s, λ h. panics_parse s h.0 h.1 h.2 h.3)
