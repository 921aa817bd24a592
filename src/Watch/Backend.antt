-- ===== src/Watch/Backend.antt =====
-- wasm/chain/backend.go, wasm/chain/esplora.go: the interface Backend and what it answers. The node's
-- answers are parameters: each is what the node says during one operation, and `none` is an error.
use ferry_web.Prelude.{ℕ, Bool, true, ◌&&◌, ◌||◌, Option, List, [], ◌∷◌, leb, ◌==◌, length}
use ferry_web.Prelude.Int.{ℤ}
use ferry_web.Prelude.Text.{Text}
use ferry_web.Prelude.Bytes.{Bytes}
use ferry_web.Prelude.Result.{Result}
use ferry_web.Contract.Script.{Txscript}
use ferry_web.Ledger.Blocks.{AccountBlock, AccountBlockList}
use ferry_web.Ledger.Preimage.{NodeError}
use ferry_web.Bitcoin.Rate.{Float64, Floats}
use ferry_web.Bitcoin.Tx.{Btcd}

pub record Status : Type 0 where
  pub confirmed : Bool
  pub block_height : ℤ
  pub block_hash : Text
  pub block_time : ℤ

pub record Utxo : Type 0 where
  pub tx_id : Text
  pub vout : ℕ
  pub value : ℤ
  pub status : Status

pub record Outspend : Type 0 where
  pub spent : Bool
  pub tx_id : Text
  pub vin : ℕ
  pub status : Status

pub record Backend : Type 0 where
  pub tip_height : Option ℤ
  pub address_utxos : Text → Option (List Utxo)
  pub raw_tx : Text → Option Text
  pub tx_status : Text → Option Status
  pub outspend_of : Text → ℕ → Option Outspend
  pub fee_rate : ℕ → Option Float64
  pub block_hash_at : ℤ → Option Text
  pub broadcast : Text → Option Text

-- znn.Client, as Ledger/Preimage reads it.
pub record ZenonNode : Type 0 where
  pub page_of : Text → ℕ → ℕ → Result NodeError AccountBlockList
  pub block_of : Text → Result NodeError AccountBlock

-- The packages that the code calls.
pub record Packages : Type 0 where
  pub sha256 : Bytes → Bytes
  pub base64 : Text → Option Bytes
  pub pushed_data : Bytes → Option (List Bytes)
  pub txscript : Txscript
  pub btcd : Btcd
  pub floats : Floats

is_hex_digit : ℕ → Bool
is_hex_digit c = (leb 48 c && leb c 57) || (leb 97 c && leb c 102) || (leb 65 c && leb c 70)

all_hex_digits : Text → Bool
unfolding is_hex_digit
all_hex_digits [] = true
all_hex_digits (c ∷ s) = is_hex_digit c && all_hex_digits s

-- ValidTxID, on a text of ASCII.
unfoldable pub valid_tx_id : Text → Bool
unfolding all_hex_digits
valid_tx_id s = length s == 64 && all_hex_digits s
