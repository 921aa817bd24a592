-- ===== src/Abi/Holds.antt =====
-- wasm/znn/htlcabi.go: where the dynamic argument stands in a packed call.
use mathlib.Core.List.{append_assoc}
use ferry_web.Prelude.Bytes.{Bytes}
use ferry_web.Prelude.Result.{ok, guard-eq-ok}
use ferry_web.Abi.Words.{left_pad, pack_int, pack_bytes, pack_bytes_split}
use ferry_web.Abi.Calls.{
  hash_locked_size, no_hash_lock, bad_expiration_time, bad_htlc_id, no_preimage, sig_create,
  sig_unlock, method_id, pack_create, pack_unlock,
}
use ferry_web.Prelude.{ℕ, ◌≡◌, sym, ap, ◌∙◌, not, ◌++◌, ◌==◌, length, is_empty}
use ferry_web.Prelude.Int.{ℤ, pos, ltb_ℤ}

-- A byte string that stands somewhere in another.
abbrev pub Holds : Bytes → Bytes → Type 0
Holds call v = (xs : Bytes) × (ys : Bytes) × (call ≡ xs ++ (v ++ ys))

module _ (sha3 : Bytes → Bytes) where
  pub pack_unlock-Holds :
      (id preimage : Bytes) {call : Bytes}
      → pack_unlock sha3 id preimage ≡ ok call
      → Holds call preimage
  unfolding pack_unlock
  pack_unlock-Holds id preimage {call} h =
      let (size, h1) = guard-eq-ok (length id == 32) bad_htlc_id _ h in
      let (some_preimage, made) = guard-eq-ok (not (is_empty preimage)) no_preimage _ h1 in
      let (w, ys, split) = pack_bytes_split preimage in
      let head = method_id sha3 sig_unlock ++ (left_pad id ++ pack_int (pos 64)) in
      let is_call : head ++ pack_bytes preimage ≡ call = simp append_assoc (cc made) in
      (
        head ++ w,
        ys,
        sym is_call ∙ ap (λ x. head ++ x) split ∙ sym (append_assoc head w (preimage ++ ys)),
      )

  pub pack_create-Holds :
      (payee : Bytes) (z : ℤ) (ht ks : ℕ) (lock : Bytes) {call : Bytes}
      → pack_create sha3 payee z ht ks lock ≡ ok call
      → Holds call lock
  unfolding pack_create
  pack_create-Holds payee z ht ks lock {call} h =
      let (size, h1) = guard-eq-ok (length payee == 20) hash_locked_size _ h in
      let (some_lock, h2) = guard-eq-ok (not (is_empty lock)) no_hash_lock _ h1 in
      let (positive, made) = guard-eq-ok (ltb_ℤ (pos 0) z) bad_expiration_time _ h2 in
      let (w, ys, split) = pack_bytes_split lock in
      let head =
        method_id sha3 sig_create
        ++ (left_pad payee
            ++ (pack_int z ++ (pack_int (pos ht) ++ (pack_int (pos ks) ++ pack_int (pos 160))))) in
      let is_call : head ++ pack_bytes lock ≡ call = simp append_assoc (cc made) in
      (
        head ++ w,
        ys,
        sym is_call ∙ ap (λ x. head ++ x) split ∙ sym (append_assoc head w (lock ++ ys)),
      )
