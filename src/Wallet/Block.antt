-- ===== src/Wallet/Block.antt =====
-- wasm/walletblock.go: walletBlock, newWalletBlock, walletBlockPlan and diffSignedBlock. A value of
-- JSON is a text, a number, or another; a number is the 64 bits of a float64.
use ferry_web.Prelude.{
  ℕ, Bool, Option, none, some, List, [], ◌∷◌, ◌++◌, ◌==◌, if◌then◌else◌, replicate,
}
use ferry_web.Prelude.Int.{ℤ, pos}
use ferry_web.Prelude.Text.{Text, runes, text_eq, equal_fold}
use ferry_web.Bitcoin.Rate.{Float64}
use ferry_web.Ledger.Blocks.{htlc_contract_address}

abbrev zero_hash : Text
zero_hash = replicate 64 48

abbrev zero_token : Text
zero_token = runes "zts1qqqqqqqqqqqqqqqqtq587y"

pub record WalletBlock : Type 0 where
  pub version : ℕ
  pub chain_identifier : ℕ
  pub block_type : ℕ
  pub hash : Text
  pub previous_hash : Text
  pub height : ℕ
  pub momentum_hash : Text
  pub momentum_height : ℕ
  pub address : Text
  pub to_address : Text
  pub amount : Text
  pub token_standard : Text
  pub from_block_hash : Text
  pub data_text : Text
  pub fused_plasma : ℕ
  pub difficulty : ℕ
  pub nonce : Text
  pub public_key : Text
  pub signature : Text

unfoldable pub new_wallet_block : ℕ → Text → WalletBlock
new_wallet_block chain_id sender = record {
  version = 1;
  chain_identifier = chain_id;
  block_type = 2;
  hash = zero_hash;
  previous_hash = zero_hash;
  height = 0;
  momentum_hash = zero_hash;
  momentum_height = 0;
  address = sender;
  to_address = htlc_contract_address;
  amount = runes "0";
  token_standard = zero_token;
  from_block_hash = zero_hash;
  data_text = [];
  fused_plasma = 0;
  difficulty = 0;
  nonce = [];
  public_key = [];
  signature = [];
}

pub data Warning : Type 0 where
  proxy_unlock_denied arrives_unreceived preimage_unused : Warning

-- The proposed call, without the texts that are written for the user.
pub record Plan : Type 0 where
  pub block : WalletBlock
  pub warnings : List Warning
  pub hash_locked : Text
  pub expiration_time : ℤ
  pub amount_display : Text
  pub token_symbol : Text
  pub htlc_id : Text

abbrev pub new_plan : ℕ → Text → Plan
unfolding new_wallet_block
new_plan chain_id sender = record {
  block = new_wallet_block chain_id sender;
  warnings = [];
  hash_locked = [];
  expiration_time = pos 0;
  amount_display = [];
  token_symbol = [];
  htlc_id = [];
}

pub data Value : Type 0 where
  text : Text → Value
  number : Float64 → Value
  other : Value

abbrev pub Signed : Type 0
Signed = List (Text × Value)

pub data Departure : Type 0 where
  other_signer other_chain other_recipient other_call other_token other_amount : Text → Departure

unfoldable pub field : Text → Signed → Option Value
unfolding text_eq
field key [] = none
field key ((k, v) ∷ rest) = let found = field key rest in if text_eq k key then some v else found

abbrev pub text_of : Option Value → Option Text
text_of (some (text t)) = some t
text_of _ = none

abbrev pub number_of : Option Value → Option Float64
number_of (some (number n)) = some n
number_of _ = none

-- A field that is not there, or is of another kind, is not spoken about.
abbrev pub departs : (Text → Bool) → (Text → Departure) → Option Text → List Departure
departs same d none = []
departs same d (some got) = if same got then [] else d got ∷ []

-- uint64(n), the formats %d and %.0f of a number.
pub record Numbers : Type 0 where
  pub to_uint64 : Float64 → ℕ
  pub whole_text : Float64 → Text

module _ (n : Numbers) where
  unfoldable pub chain_departs : WalletBlock → Option Float64 → List Departure
  chain_departs proposed none = []
  chain_departs proposed (some got) =
      if n.to_uint64 got == proposed.chain_identifier
      then []
      else other_chain (n.whole_text got) ∷ []

  abbrev whole_of : Option Float64 → Option Text
  whole_of none = none
  whole_of (some got) = some (n.whole_text got)

  unfoldable pub diff_signed_block : Option WalletBlock → Signed → List Departure
  unfolding field chain_departs text_eq equal_fold
  diff_signed_block none signed = []
  diff_signed_block (some proposed) signed =
      let string : Text → Option Text = λ key. text_of (field key signed) in
      let num : Text → Option Float64 = λ key. number_of (field key signed) in
      departs (λ got. equal_fold got proposed.address) other_signer (string (runes "address"))
      ++ (chain_departs proposed (num (runes "chainIdentifier"))
          ++ (departs (λ got. equal_fold got proposed.to_address) other_recipient
                (string (runes "toAddress"))
              ++ (departs (λ got. text_eq got proposed.data_text) other_call (string (runes "data"))
                  ++ (departs (λ got. equal_fold got proposed.token_standard) other_token
                        (string (runes "tokenStandard"))
                      ++ departs (λ got. text_eq got proposed.amount) other_amount
                          (elim (string (runes "amount")) [
                            | some got ↦ some got
                            | none ↦ whole_of (num (runes "amount"))
                          ])))))
