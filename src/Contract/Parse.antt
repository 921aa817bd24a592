-- ===== src/Contract/Parse.antt =====
-- wasm/htlc.go: ParseContract.
use ferry_web.Prelude.Bytes.{Bytes}
use ferry_web.Contract.Script.{ScriptToken, Tokens, Txscript}
use ferry_web.Contract.Num.{
  Outcome, ok, err, ◌>>=◌, ◌>>◌, guard, valid_lock_time, script_num, refund_pkh_size,
  redeem_pkh_size, secret_hash_size, script_too_long, malformed_script, wrong_token_count,
  template_mismatch, wrong_secret_size, not_canonical,
}
use ferry_web.Contract.Build.{secret_size, sha256_size, build_contract}
use ferry_web.Prelude.Text.{text_eq}
use ferry_web.Prelude.{
  ℕ, zero, suc, Bool, true, not, ◌&&◌, Option, none, some, List, [], ◌∷◌, ltb, ◌==◌, if◌then◌else◌,
  length,
}
use ferry_web.Prelude.Int.{ℤ, pos, eqb_ℤ}

pub record ContractDetails : Type 0 where
  pub secret_hash : Bytes
  pub pkh_redeem : Bytes
  pub pkh_refund : Bytes
  pub lock_time : ℤ
  pub secret_size : ℤ

-- contractTemplate: the opcode at each position that is fixed, `none` at a parameter.
abbrev pub contract_template : List (Option ℕ)
contract_template =
    some 0x63
    ∷ some 0x82
    ∷ none
    ∷ some 0x88
    ∷ some 0xa8
    ∷ none
    ∷ some 0x88
    ∷ some 0x76
    ∷ some 0xa9
    ∷ none
    ∷ some 0x67
    ∷ none
    ∷ some 0xb1
    ∷ some 0x75
    ∷ some 0x76
    ∷ some 0xa9
    ∷ none
    ∷ some 0x68
    ∷ some 0x88
    ∷ some 0xac
    ∷ []

abbrev pub contract_template_len : ℕ
contract_template_len = 20

-- maxScriptNumLen and maxCLTVScriptNumLen.
abbrev pub max_script_num_len : ℕ
max_script_num_len = 4

abbrev pub max_cltv_script_num_len : ℕ
max_cltv_script_num_len = 5

unfoldable pub fits_template : List (Option ℕ) → List ScriptToken → Bool
fits_template (some o ∷ os) (t ∷ ts) = t.op == o && fits_template os ts
fits_template (none ∷ os) (t ∷ ts) = fits_template os ts
fits_template _ _ = true

-- The loop over the tokenizer with its three refusals.
unfoldable pub read_tokens : Tokens → Outcome (List ScriptToken)
read_tokens t =
    if ltb contract_template_len (length t.read)
    then err script_too_long
    else if t.malformed
    then err malformed_script
    else if not (length t.read == contract_template_len)
    then err wrong_token_count
    else ok t.read

abbrev pub token_at : List ScriptToken → ℕ → ScriptToken
token_at [] i = record { op = 0; bytes = none }
token_at (t ∷ ts) zero = t
token_at (t ∷ ts) (suc i) = token_at ts i

-- The bytes of `t.data`, where nil has none.
abbrev pub data_of : Option Bytes → Bytes
data_of none = []
data_of (some d) = d

-- The parameters at their positions, each with its check.
unfoldable pub read_terms : List ScriptToken → Outcome ContractDetails
read_terms ts = do
  size ← script_num (token_at ts 2) max_script_num_len
  guard (eqb_ℤ size (pos secret_size)) wrong_secret_size
  let secret_hash = data_of (token_at ts 5).bytes
  guard (length secret_hash == sha256_size) secret_hash_size
  let pkh_redeem = data_of (token_at ts 9).bytes
  guard (length pkh_redeem == 20) redeem_pkh_size
  locktime ← script_num (token_at ts 11) max_cltv_script_num_len
  valid_lock_time locktime
  let pkh_refund = data_of (token_at ts 16).bytes
  guard (length pkh_refund == 20) refund_pkh_size
  ok (record {
    secret_hash = secret_hash;
    pkh_redeem = pkh_redeem;
    pkh_refund = pkh_refund;
    lock_time = locktime;
    secret_size = size;
  })

module _ (t : Txscript) where
  unfoldable pub parse_contract : Bytes → Outcome ContractDetails
  parse_contract script = do
    ts ← read_tokens (t.tokens script)
    guard (fits_template contract_template ts) template_mismatch
    d ← read_terms ts
    canonical ← build_contract t d.pkh_refund d.pkh_redeem d.lock_time d.secret_hash
    guard (text_eq script canonical) not_canonical
    ok d
