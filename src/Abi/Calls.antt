-- ===== src/Abi/Calls.antt =====
-- wasm/znn/htlcabi.go: PackCreate, PackUnlock and PackReclaim. SHA3-256 is the parameter `sha3`.
use ferry_web.Prelude.Bytes.{Bytes}
use ferry_web.Prelude.Text.{runes}
use ferry_web.Prelude.Result.{Result, ok, ◌>>◌, guard}
use ferry_web.Abi.Words.{word_size, left_pad, pack_int, pack_bytes}
use ferry_web.Prelude.{ℕ, ◌*◌, ◌≡◌, not, ◌++◌, arith, ◌==◌, length, take, is_empty, length-take}
use ferry_web.Prelude.Int.{ℤ, pos, ltb_ℤ}

pub data AbiError : Type 0 where
  hash_locked_size no_hash_lock bad_expiration_time bad_htlc_id no_preimage : AbiError

abbrev pub address_size : ℕ
address_size = 20

abbrev pub hash_size : ℕ
hash_size = 32

abbrev pub sig_create : Bytes
sig_create = runes "Create(address,int64,uint8,uint8,bytes)"

abbrev pub sig_unlock : Bytes
sig_unlock = runes "Unlock(hash,bytes)"

abbrev pub sig_reclaim : Bytes
sig_reclaim = runes "Reclaim(hash)"

module _ (sha3 : Bytes → Bytes) where
  unfoldable pub method_id : Bytes → Bytes
  method_id signature = take 4 (sha3 signature)

  unfoldable pub pack_create : Bytes → ℤ → ℕ → ℕ → Bytes → Result AbiError Bytes
  pack_create hash_locked expiration_time hash_type key_max_size hash_lock = do
    guard (length hash_locked == address_size) hash_locked_size
    guard (not (is_empty hash_lock)) no_hash_lock
    guard (ltb_ℤ (pos 0) expiration_time) bad_expiration_time
    ok (
        method_id sig_create
        ++ (left_pad hash_locked
            ++ (pack_int expiration_time
                ++ (pack_int (pos hash_type)
                    ++ (pack_int (pos key_max_size)
                        ++ (pack_int (pos (5 * word_size)) ++ pack_bytes hash_lock))))))

  unfoldable pub pack_unlock : Bytes → Bytes → Result AbiError Bytes
  pack_unlock id preimage = do
    guard (length id == hash_size) bad_htlc_id
    guard (not (is_empty preimage)) no_preimage
    ok (
        method_id sig_unlock
        ++ (left_pad id ++ (pack_int (pos (2 * word_size)) ++ pack_bytes preimage)))

  unfoldable pub pack_reclaim : Bytes → Result AbiError Bytes
  pack_reclaim id = do
    guard (length id == hash_size) bad_htlc_id
    ok (method_id sig_reclaim ++ left_pad id)

-- The digest is longer than the four bytes that are kept.
abbrev pub IsDigest : (Bytes → Bytes) → Type 0
IsDigest sha3 = (m : Bytes) → length (sha3 m) ≡ 32

pub length-method_id :
    (sha3 : Bytes → Bytes) → IsDigest sha3 → (m : Bytes) → length (method_id sha3 m) ≡ 4
unfolding method_id
length-method_id sha3 digest m = omega (arith, length-take 4 (sha3 m), digest m)
