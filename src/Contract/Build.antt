-- ===== src/Contract/Build.antt =====
-- wasm/htlc.go: BuildContract and the two signature scripts.
use ferry_web.Prelude.Bytes.{Bytes}
use ferry_web.Contract.Script.{Piece, op, int64, push, Txscript}
use ferry_web.Contract.Num.{
  Outcome, ok, err, ◌>>◌, guard, valid_lock_time, refund_pkh_size, redeem_pkh_size,
  secret_hash_size, build_failed,
}
use ferry_web.Prelude.{ℕ, Option, none, some, List, [], ◌∷◌, ◌==◌, length}
use ferry_web.Prelude.Int.{ℤ, pos}

abbrev pub secret_size : ℕ
secret_size = 32

-- sha256.Size.
abbrev pub sha256_size : ℕ
sha256_size = 32

-- The calls of the script builder, in order; the opcodes are Bitcoin's.
abbrev pub contract_pieces : Bytes → Bytes → ℤ → Bytes → List Piece
contract_pieces pkh_refund pkh_redeem locktime secret_hash =
    op 0x63  -- OP_IF
    ∷ op 0x82  -- OP_SIZE
    ∷ int64 (pos secret_size)
    ∷ op 0x88  -- OP_EQUALVERIFY
    ∷ op 0xa8  -- OP_SHA256
    ∷ push secret_hash
    ∷ op 0x88
    ∷ op 0x76  -- OP_DUP
    ∷ op 0xa9  -- OP_HASH160
    ∷ push pkh_redeem
    ∷ op 0x67  -- OP_ELSE
    ∷ int64 locktime
    ∷ op 0xb1  -- OP_CHECKLOCKTIMEVERIFY
    ∷ op 0x75  -- OP_DROP
    ∷ op 0x76
    ∷ op 0xa9
    ∷ push pkh_refund
    ∷ op 0x68  -- OP_ENDIF
    ∷ op 0x88
    ∷ op 0xac  -- OP_CHECKSIG
    ∷ []

abbrev pub built : Option Bytes → Outcome Bytes
built (some s) = ok s
built none = err build_failed

module _ (t : Txscript) where
  unfoldable pub build_contract : Bytes → Bytes → ℤ → Bytes → Outcome Bytes
  build_contract pkh_refund pkh_redeem locktime secret_hash = do
    guard (length pkh_refund == 20) refund_pkh_size
    guard (length pkh_redeem == 20) redeem_pkh_size
    guard (length secret_hash == sha256_size) secret_hash_size
    valid_lock_time locktime
    built (t.script (contract_pieces pkh_refund pkh_redeem locktime secret_hash))

  unfoldable pub redeem_sig_script : Bytes → Bytes → Bytes → Bytes → Option Bytes
  redeem_sig_script contract sig pubkey secret =
      t.script (push sig ∷ push pubkey ∷ push secret ∷ int64 (pos 1) ∷ push contract ∷ [])

  unfoldable pub refund_sig_script : Bytes → Bytes → Bytes → Option Bytes
  refund_sig_script contract sig pubkey =
      t.script (push sig ∷ push pubkey ∷ int64 (pos 0) ∷ push contract ∷ [])
