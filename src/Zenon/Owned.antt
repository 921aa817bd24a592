-- ===== src/Zenon/Owned.antt =====
-- wasm/znn/address.go: an address that was encoded parses, and belongs to the key it was derived from.
use ferry_web.Prelude.{◌≡◌, ap, ◌∙◌, ◌↔◌, Option, none, some, ◌∷◌, arith, ◌==◌, length, take}
use ferry_web.Prelude.Text.{Text, text_eq, text_eq_iff}
use ferry_web.Prelude.Bytes.{Bytes}
use ferry_web.Prelude.Result.{Result, ok, >>=-eq-ok, guard-eq-ok, or_err-eq-ok, or_err, ok_inj}
use ferry_web.Zenon.Address.{
  bad_bits, bad_size, bad_key_size, not_owned, Bech32, IsBech32, address_prefix, parse_zenon_bech32,
  parse_address, encode_address, derive_address, address_owned_by,
}

module _ (b : Bech32) (laws : IsBech32 b) where
  or_err-some :
      {E A : Type 0} (o : Option A) (why : E) (a : A)
      → ◌≡◌ {A = Result E A} (or_err o why) (ok a)
      → o ≡ some a
  or_err-some (some x) why a h = ap some (ok_inj h)
  or_err-some none why a h = cc h

  -- The 20 bytes of an address that was written are what reading it gives.
  pub encode_address-parse :
      (raw : Bytes) (s : Text) → encode_address b raw ≡ ok s → parse_address b s ≡ ok raw
  unfolding encode_address parse_address parse_zenon_bech32
  encode_address-parse raw s e =
      let (sized, e) = guard-eq-ok (length raw == 20) bad_size _ e in
      let (digits, split, e) = or_err-eq-ok (b.to_digits raw) bad_bits _ e in
      let read = laws.decode-encode address_prefix digits s (or_err-some _ _ _ e) in
      let back = laws.bytes-digits raw digits split in
      rw (read, back) (ground (arith, sized, text_eq_iff address_prefix address_prefix))

  derive-encode :
      (sha3 : Bytes → Bytes) (pub_key : Bytes) (s : Text)
      → derive_address b sha3 pub_key ≡ ok s
      → encode_address b (0 ∷ take 19 (sha3 pub_key)) ≡ ok s
  unfolding derive_address
  derive-encode sha3 pub_key s e = (guard-eq-ok (length pub_key == 32) bad_key_size _ e).1

  -- A key owns an address if and only if the address is the one that is derived from the key. The package
  -- bech32 reads back what it writes.
  pub address_owned_by_iff :
      (sha3 : Bytes → Bytes) (addr : Text) (pub_key : Bytes)
      → (address_owned_by b sha3 addr pub_key ≡ ok tt) ↔ (derive_address b sha3 pub_key ≡ ok addr)
  unfolding address_owned_by
  address_owned_by_iff sha3 addr pub_key = (
    λ e.
        let (raw, read, e) = >>=-eq-ok (parse_address b addr) _ e in
        let (derived, is, e) = >>=-eq-ok (derive_address b sha3 pub_key) _ e in
        let (same, _) = guard-eq-ok (text_eq derived addr) not_owned _ e in
        is ∙ ap (λ x. ok x) ((text_eq_iff _ _).0 same),
    λ e.
        let read =
          encode_address-parse (0 ∷ take 19 (sha3 pub_key)) addr
            (derive-encode sha3 pub_key addr e) in
        rw (read, e) (ground (arith, text_eq_iff addr addr)),
  )
