-- ===== src/Bitcoin/Tx.antt =====
-- wasm/txbuild.go: transactions, as the fields of btcd's wire.MsgTx that the code reads and writes, with
-- DecodeRawTx, contractPkScript, addressScript and mempoolVSize. The packages are the parameter `Btcd`.
use ferry_web.Prelude.{ℕ, ◌+◌, ◌*◌, ◌/◌, Bool, Option, none, some, List, if◌then◌else◌, is_empty}
use ferry_web.Prelude.Int.{ℤ}
use ferry_web.Prelude.Text.{Text, trim_space}
use ferry_web.Prelude.Bytes.{Bytes}
use ferry_web.Prelude.Hex.{hex_decode}
use ferry_web.Swap.Record.{Network}

pub record TxIn : Type 0 where
  pub prev_hash : Bytes
  pub prev_index : ℕ
  pub signature_script : Bytes
  pub sequence : ℕ

pub record TxOut : Type 0 where
  pub value : ℤ
  pub pk_script : Bytes

pub record Tx : Type 0 where
  pub version : ℕ
  pub tx_in : List TxIn
  pub tx_out : List TxOut
  pub lock_time : ℕ

-- What the code calls of btcd. An address is the package's own value, kept here as bytes.
pub record Btcd : Type 0 where
  -- MsgTx.Deserialize: the transaction, and the bytes that are left.
  pub deserialize : Bytes → Option (Tx × Bytes)
  pub serialize : Tx → Bytes
  -- SerializeSizeStripped and SerializeSize.
  pub stripped_size : Tx → ℕ
  pub full_size : Tx → ℕ
  pub tx_hash : Tx → Bytes
  -- Hash.String and chainhash.NewHashFromStr.
  pub hash_string : Bytes → Text
  pub hash_from_str : Text → Option Bytes
  -- btcutil.NewAddressScriptHash, DecodeAddress, IsForNet and txscript.PayToAddrScript.
  pub script_hash_address : Bytes → Network → Option Bytes
  pub decode_address : Text → Network → Option Bytes
  pub is_for_net : Bytes → Network → Bool
  pub pay_to_addr_script : Bytes → Option Bytes
  -- RawTxInSignature of input 0 with SigHashAll: the transaction, the contract and the private key.
  pub sign : Tx → Bytes → Bytes → Option Bytes
  -- NewEngine and Execute with the standard flags: the output's script and value, and the transaction.
  pub executes : Bytes → ℤ → Tx → Bool

module _ (d : Btcd) where
  unfoldable pub decode_raw_tx : Text → Option Tx
  unfolding hex_decode trim_space
  decode_raw_tx raw_hex = elim (hex_decode (trim_space raw_hex)) [
    | none ↦ none
    | some raw ↦ elim (d.deserialize raw) [
      | none ↦ none
      | some (tx, rest) ↦ if is_empty rest then some tx else none
    ]
  ]

  unfoldable pub contract_pk_script : Bytes → Network → Option Bytes
  contract_pk_script contract params = elim (d.script_hash_address contract params) [
    | none ↦ none
    | some addr ↦ d.pay_to_addr_script addr
  ]

  unfoldable pub address_script : Text → Network → Option Bytes
  unfolding trim_space
  address_script addr params = elim (d.decode_address (trim_space addr) params) [
    | none ↦ none
    | some decoded ↦ if d.is_for_net decoded params then d.pay_to_addr_script decoded else none
  ]

  unfoldable pub mempool_vsize : Tx → ℕ
  mempool_vsize tx = let weight = d.stripped_size tx * 3 + d.full_size tx in (weight + 3) / 4
