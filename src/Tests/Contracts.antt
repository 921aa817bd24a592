-- ===== src/Tests/Contracts.antt =====
-- The contract theorems at a concrete contract.
use ferry_web.Prelude.Bytes.{Bytes}
use ferry_web.Contract.Script.{ScriptToken}
use ferry_web.Contract.Num.{ok, panic, script_num, valid_lock_time}
use ferry_web.Contract.Build.{build_contract}
use ferry_web.Contract.Parse.{
  ContractDetails, contract_template, fits_template, read_tokens, read_terms, parse_contract,
}
use ferry_web.Contract.Canonical.{IsTerms, parse_contract-build, build_contract-parse}
use ferry_web.Contract.Panics.{PanicsAt, parse_contract-panics}
use ferry_web.Contract.Secret.{
  extract_secret, Reveals, extract_secret_sound, extract_secret_complete, first_match, here, later,
}
use ferry_web.Prelude.Text.{text_eq}
use ferry_web.Tests.Bitcoin.{btcd, btcd-IsTxscript}
use ferry_web.Prelude.{
  ◌+◌, ◌%◌, inl, ◌≡◌, refl, ◌≢◌, ◌↔◌, true, Option, none, some, List, [], ◌∷◌, ◌++◌, drop,
  replicate,
}
use ferry_web.Prelude.Int.{ℤ, pos}

abbrev pub pkh_a : Bytes
pkh_a = replicate 20 7

abbrev pub pkh_b : Bytes
pkh_b = replicate 20 9

abbrev pub hash : Bytes
hash = replicate 32 200

abbrev pub lock : ℤ
lock = pos 1800000000

abbrev pub contract : Bytes
contract =
    0x63
    ∷ 0x82
    ∷ 1
    ∷ 32
    ∷ 0x88
    ∷ 0xa8
    ∷ 32
    ∷ (hash
        ++ (0x88
            ∷ 0x76
            ∷ 0xa9
            ∷ 20
            ∷ (pkh_b
                ++ (0x67
                    ∷ 4
                    ∷ 0x00
                    ∷ 0xd2
                    ∷ 0x49
                    ∷ 0x6b
                    ∷ 0xb1
                    ∷ 0x75
                    ∷ 0x76
                    ∷ 0xa9
                    ∷ 20
                    ∷ (pkh_a ++ (0x68 ∷ 0x88 ∷ 0xac ∷ []))))))

pub contract_is_built : build_contract btcd pkh_a pkh_b lock hash ≡ ok contract
unfolding build_contract valid_lock_time btcd
contract_is_built = refl

abbrev pub details : ContractDetails
details = record {
  secret_hash = hash;
  pkh_redeem = pkh_b;
  pkh_refund = pkh_a;
  lock_time = lock;
  secret_size = pos 32;
}

pub contract_parses : parse_contract btcd contract ≡ ok details
unfolding parse_contract read_tokens fits_template read_terms script_num valid_lock_time
    build_contract btcd text_eq
contract_parses = refl

build_contract-parse_example : parse_contract btcd contract ≡ ok details
build_contract-parse_example =
    build_contract-parse btcd btcd-IsTxscript pkh_a pkh_b lock hash contract contract_is_built

parse_contract-build_example :
    (build_contract btcd pkh_a pkh_b lock hash ≡ ok contract)
    × IsTerms pkh_a pkh_b lock hash
    × (pos 32 ≡ pos 32)
parse_contract-build_example = parse_contract-build btcd contract contract_parses

-- The secret size pushed by OP_PUSHDATA1 with a length of zero.
abbrev crafted : Bytes
crafted = 0x63 ∷ 0x82 ∷ 76 ∷ 0 ∷ drop 4 contract

crafted_panics : parse_contract btcd crafted ≡ panic
unfolding parse_contract read_tokens fits_template read_terms script_num btcd
crafted_panics = refl

parse_contract-panics_example : (parse_contract btcd crafted ≡ panic) ↔ (
    (ts : List ScriptToken) × (read_tokens (btcd.tokens crafted) ≡ ok ts)
    × (fits_template contract_template ts ≡ true)
    × PanicsAt ts)
parse_contract-panics_example = parse_contract-panics btcd crafted

-- A hash of one byte and a script language with one push, to run the search for the secret.
abbrev sum_hash : Bytes → Bytes
sum_hash [] = 0 ∷ []
sum_hash (b ∷ bs) = elim (sum_hash bs) [ [] ↦ [] | c ∷ _ ↦ ((b + c) % 256) ∷ [] ]

abbrev one_push : Bytes → Option (List Bytes)
one_push [] = none
one_push (b ∷ bs) = some (bs ∷ [])

abbrev scripts : List Bytes
scripts = [] ∷ (1 ∷ 2 ∷ 3 ∷ []) ∷ []

reveals : Reveals sum_hash one_push (2 ∷ 3 ∷ []) scripts
reveals = later (here refl (inl refl))

extracted : extract_secret sum_hash one_push scripts (5 ∷ []) ≡ some (2 ∷ 3 ∷ [])
unfolding extract_secret first_match text_eq
extracted = refl

extract_secret_sound_example :
    (sum_hash (2 ∷ 3 ∷ []) ≡ 5 ∷ []) × Reveals sum_hash one_push (2 ∷ 3 ∷ []) scripts
extract_secret_sound_example = extract_secret_sound sum_hash one_push scripts (5 ∷ []) extracted

extract_secret_complete_example : extract_secret sum_hash one_push scripts (5 ∷ []) ≢ none
extract_secret_complete_example =
    extract_secret_complete sum_hash one_push (2 ∷ 3 ∷ []) scripts (5 ∷ []) reveals refl
