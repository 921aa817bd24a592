-- ===== src/Abi/Method.antt =====
-- wasm/znn/htlcabi.go: the four bytes that say which method is called.
use ferry_web.Prelude.{ℕ, ◌≡◌, subst, not, ◌++◌, ◌==◌, length, take, is_empty, take-append}
use ferry_web.Prelude.Int.{ℤ, pos, ltb_ℤ}
use ferry_web.Prelude.Text.{Text, runes}
use ferry_web.Prelude.Bytes.{Bytes}
use ferry_web.Prelude.Result.{ok, ok_inj, guard-eq-ok}
use ferry_web.Abi.Calls.{
  hash_locked_size, no_hash_lock, bad_expiration_time, bad_htlc_id, no_preimage, sig_create,
  sig_unlock, method_id, pack_create, pack_unlock, IsDigest, length-method_id,
}

-- The call is of the method with this signature: it starts with four bytes of its digest.
abbrev pub Calls : (Bytes → Bytes) → Text → Bytes → Type 0
Calls sha3 signature call = take 4 call ≡ take 4 (sha3 signature)

module _ (sha3 : Bytes → Bytes) (digest : IsDigest sha3) where
  method_id-Calls : (m args : Bytes) → Calls sha3 m (method_id sha3 m ++ args)
  unfolding method_id
  method_id-Calls m args = take-append 4 (method_id sha3 m) args (length-method_id sha3 digest m)

  -- A packed create calls the method of that name.
  pub pack_create-Calls :
      (payee : Bytes) (z : ℤ) (ht ks : ℕ) (lock : Bytes) {call : Bytes}
      → pack_create sha3 payee z ht ks lock ≡ ok call
      → Calls sha3 (runes "Create(address,int64,uint8,uint8,bytes)") call
  unfolding pack_create
  pack_create-Calls payee z ht ks lock {call} h =
      let (_, h1) = guard-eq-ok (length payee == 20) hash_locked_size _ h in
      let (_, h2) = guard-eq-ok (not (is_empty lock)) no_hash_lock _ h1 in
      let (_, made) = guard-eq-ok (ltb_ℤ (pos 0) z) bad_expiration_time _ h2 in
      subst (Calls sha3 sig_create) (ok_inj made) (method_id-Calls sig_create _)

  -- A packed unlock calls the method of that name.
  pub pack_unlock-Calls :
      (id preimage : Bytes) {call : Bytes}
      → pack_unlock sha3 id preimage ≡ ok call
      → Calls sha3 (runes "Unlock(hash,bytes)") call
  unfolding pack_unlock
  pack_unlock-Calls id preimage {call} h =
      let (_, h1) = guard-eq-ok (length id == 32) bad_htlc_id _ h in
      let (_, made) = guard-eq-ok (not (is_empty preimage)) no_preimage _ h1 in
      subst (Calls sha3 sig_unlock) (ok_inj made) (method_id-Calls sig_unlock _)
