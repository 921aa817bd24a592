-- ===== src/Abi/RoundTrip.antt =====
-- wasm/znn/htlcabi.go: the packed calls against the reader of Decode.
use mathlib.Core.List.{append_assoc}
use ferry_web.Prelude.Bytes.{Bytes, be_value}
use ferry_web.Prelude.Result.{ok, guard-eq-ok}
use ferry_web.Abi.Words.{
  left_pad, pack_int, pack_bytes, length-left_pad, length-pack_int, be_value-pack_int,
  left_pad_ends, pack_bytes_starts,
}
use ferry_web.Abi.Calls.{
  hash_locked_size, no_hash_lock, bad_expiration_time, bad_htlc_id, no_preimage, sig_create,
  sig_unlock, sig_reclaim, method_id, pack_create, pack_unlock, pack_reclaim, IsDigest,
  length-method_id,
}
use ferry_web.Abi.Decode.{
  word_at, number_at, address_at, bytes_at, args_of, decode_create, decode_unlock, decode_reclaim,
}
use ferry_web.Prelude.{
  ℕ, suc, ◌^◌, ◌<◌, ◌≡◌, sym, ap, ap₂, subst, ◌∙◌, not, ◌++◌, arith, ◌==◌, ==_iff, length, drop,
  is_empty, length-append, take-append, drop-append, take-length,
}
use ferry_web.Prelude.Int.{ℤ, pos, negsuc, pos_part, ◌<ℤ◌, ltb_ℤ, ltb_ℤ_iff}
use ferry_web.Prelude.Int64.{Fits}

word_at_zero : (w r : Bytes) → length w ≡ 32 → word_at 0 (w ++ r) ≡ w
word_at_zero w r h = take-append 32 w r h

word_at-suc : (i : ℕ) (w r : Bytes) → length w ≡ 32 → word_at (suc i) (w ++ r) ≡ word_at i r
word_at-suc i w r h = ap (word_at i) (drop-append 32 w r h)

-- A dynamic value that stands at the offset its word names.
bytes_at_end :
    (i : ℕ) (head v : Bytes)
    → length v < 2 ^ 64
    → number_at i (head ++ pack_bytes v) ≡ length head
    → bytes_at i (head ++ pack_bytes v) ≡ v
bytes_at_end i head v h e =
    let (value, size) = pack_bytes_starts v in
    let at_tail : drop (number_at i (head ++ pack_bytes v)) (head ++ pack_bytes v) ≡ pack_bytes v =
      drop-append (number_at i (head ++ pack_bytes v)) head (pack_bytes v) (sym e) in
    rw at_tail (rw size (rw (be_value-pack_int (length v) h) value))

-- Five words and a dynamic value behind them, whose offset the fifth word gives.
abbrev five_args : Bytes → Bytes → Bytes → Bytes → Bytes → Bytes → Bytes
five_args a b c d e v = a ++ (b ++ (c ++ (d ++ (e ++ pack_bytes v))))

module _ (a b c d e v : Bytes) (la : length a ≡ 32) (lb : length b ≡ 32) (lc : length c ≡ 32)
    (ld : length d ≡ 32) (le : length e ≡ 32) where
  abbrev five : Bytes
  five = five_args a b c d e v

  five_words :
      (word_at 0 five ≡ a)
      × (word_at 1 five ≡ b)
      × (word_at 2 five ≡ c)
      × (word_at 3 five ≡ d)
      × (word_at 4 five ≡ e)
  five_words =
      let r3 = d ++ (e ++ pack_bytes v) in
      let r2 = c ++ r3 in
      let r1 = b ++ r2 in
      let skip1 = λ (i : ℕ). word_at-suc i a r1 la in
      let skip2 = λ (i : ℕ). skip1 (suc i) ∙ word_at-suc i b r2 lb in
      let skip3 = λ (i : ℕ). skip2 (suc i) ∙ word_at-suc i c r3 lc in
      let skip4 = λ (i : ℕ). skip3 (suc i) ∙ word_at-suc i d (e ++ pack_bytes v) ld in
      (
        word_at_zero a r1 la,
        skip1 0 ∙ word_at_zero b r2 lb,
        skip2 0 ∙ word_at_zero c r3 lc,
        skip3 0 ∙ word_at_zero d (e ++ pack_bytes v) ld,
        skip4 0 ∙ word_at_zero e (pack_bytes v) le,
      )

  five_bytes : length v < 2 ^ 64 → be_value e ≡ 160 → bytes_at 4 five ≡ v
  five_bytes short offset =
      let head = a ++ (b ++ (c ++ (d ++ e))) in
      let flat : head ++ pack_bytes v ≡ five = simp append_assoc in
      let size : length head ≡ 160 = omega (
        arith,
        length-append a (b ++ (c ++ (d ++ e))),
        length-append b (c ++ (d ++ e)),
        length-append c (d ++ e),
        length-append d e,
        la,
        lb,
        lc,
        ld,
        le,
      ) in
      subst (λ x. bytes_at 4 x ≡ v) flat
        (bytes_at_end 4 head v short (
          subst (λ x. number_at 4 x ≡ length head) (sym flat)
            (ap be_value five_words.4 ∙ offset ∙ sym size)))

module _ (sha3 : Bytes → Bytes) (digest : IsDigest sha3) where
  args_of-method : (m args : Bytes) → args_of (method_id sha3 m ++ args) ≡ args
  args_of-method m args = drop-append 4 (method_id sha3 m) args (length-method_id sha3 digest m)

  -- A packed reclaim names its entry.
  pub pack_reclaim-decode :
      (id : Bytes) {call : Bytes} → pack_reclaim sha3 id ≡ ok call → decode_reclaim call ≡ id
  unfolding pack_reclaim
  pack_reclaim-decode id {call} h =
      let (size, made) = guard-eq-ok (length id == 32) bad_htlc_id _ h in
      let is_call : method_id sha3 sig_reclaim ++ left_pad id ≡ call = cc made in
      rw (← is_call) (
        rw (args_of-method sig_reclaim (left_pad id))
          (take-length 32 (left_pad id) (length-left_pad id) ∙ left_pad_ends id 0 (ground arith)))

  -- The contract reads the id and the preimage of a packed unlock as they were given.
  pub pack_unlock-decode :
      (id preimage : Bytes) {call : Bytes}
      → length preimage < 2 ^ 64
      → pack_unlock sha3 id preimage ≡ ok call
      → decode_unlock call ≡ (id, preimage)
  unfolding pack_unlock
  pack_unlock-decode id preimage {call} short h =
      let (size, h1) = guard-eq-ok (length id == 32) bad_htlc_id _ h in
      let (some_preimage, made) = guard-eq-ok (not (is_empty preimage)) no_preimage _ h1 in
      let w = left_pad id in
      let offset = pack_int (pos 64) in
      let is_call : method_id sha3 sig_unlock ++ (w ++ (offset ++ pack_bytes preimage)) ≡ call =
        cc made in
      let w_size = length-left_pad id in
      let second : number_at 1 (w ++ (offset ++ pack_bytes preimage)) ≡ 64 =
        ap be_value (
          word_at-suc 0 w _ w_size
          ∙ word_at_zero offset (pack_bytes preimage) (length-pack_int (pos 64)))
        ∙ be_value-pack_int 64 (omega arith) in
      let flat = append_assoc w offset (pack_bytes preimage) in
      let tail : bytes_at 1 (w ++ (offset ++ pack_bytes preimage)) ≡ preimage =
        subst (λ x. bytes_at 1 x ≡ preimage) flat
          (bytes_at_end 1 (w ++ offset) preimage short (
            subst (λ x. number_at 1 x ≡ length (w ++ offset)) (sym flat)
              (omega (arith, second, length-append w offset, w_size, length-pack_int (pos 64))))) in
      rw (← is_call) (
        rw (args_of-method sig_unlock (w ++ (offset ++ pack_bytes preimage))) (
          ap₂ (λ (a b : Bytes). (a, b))
            (word_at_zero w _ w_size ∙ left_pad_ends id 0 (ground arith)) tail))

  pack_create_inv :
      (payee : Bytes) (z : ℤ) (ht ks : ℕ) (lock : Bytes) {call : Bytes}
      → pack_create sha3 payee z ht ks lock ≡ ok call
      → (length payee ≡ 20)
        × (pos 0 <ℤ z)
        × (method_id sha3 sig_create
              ++ five_args
                  (left_pad payee)
                  (pack_int z)
                  (pack_int (pos ht))
                  (pack_int (pos ks))
                  (pack_int (pos 160))
                  lock
            ≡ call)
  unfolding pack_create
  pack_create_inv payee z ht ks lock h =
      let (size, h1) = guard-eq-ok (length payee == 20) hash_locked_size _ h in
      let (some_lock, h2) = guard-eq-ok (not (is_empty lock)) no_hash_lock _ h1 in
      let (positive, made) = guard-eq-ok (ltb_ℤ (pos 0) z) bad_expiration_time _ h2 in
      ((==_iff (length payee) 20).0 size, (ltb_ℤ_iff (pos 0) z).0 positive, cc made)

  -- The contract reads the payee, the expiry, both sizes and the hashlock of a packed create as they
  -- were given, and the expiry is positive.
  pub pack_create-decode :
      (hash_locked : Bytes) (expiration_time : ℤ) (hash_type key_max_size : ℕ) (hash_lock : Bytes)
      {call : Bytes}
      → Fits expiration_time
      → hash_type < 256
      → key_max_size < 256
      → length hash_lock < 2 ^ 64
      → pack_create sha3 hash_locked expiration_time hash_type key_max_size hash_lock ≡ ok call
      → (decode_create call ≡ record {
        hash_locked = hash_locked;
        expiration_time = pos_part expiration_time;
        hash_type = hash_type;
        key_max_size = key_max_size;
        hash_lock = hash_lock;
      })
        × (pos 0 <ℤ expiration_time)
  pack_create-decode payee (negsuc n) ht ks lock fits a b short h =
      absurd (omega (arith, (pack_create_inv payee (negsuc n) ht ks lock h).1))
  pack_create-decode payee (pos n) ht ks lock {call} fits a b short h =
      let (size, positive, is_call) = pack_create_inv payee (pos n) ht ks lock h in
      let args =
        five_args (left_pad payee) (pack_int (pos n)) (pack_int (pos ht)) (pack_int (pos ks))
          (pack_int (pos 160)) lock in
      let words =
        five_words (left_pad payee) (pack_int (pos n)) (pack_int (pos ht)) (pack_int (pos ks))
          (pack_int (pos 160)) lock (length-left_pad payee) (length-pack_int (pos n))
          (length-pack_int (pos ht)) (length-pack_int (pos ks)) (length-pack_int (pos 160)) in
      let p0 : address_at 0 args ≡ payee =
        ap (drop 12) words.0 ∙ left_pad_ends payee 12 (omega arith) in
      let p1 : number_at 1 args ≡ n = ap be_value words.1 ∙ be_value-pack_int n (omega arith) in
      let p2 : number_at 2 args ≡ ht = ap be_value words.2 ∙ be_value-pack_int ht (omega arith) in
      let p3 : number_at 3 args ≡ ks = ap be_value words.3 ∙ be_value-pack_int ks (omega arith) in
      let tail =
        five_bytes (left_pad payee) (pack_int (pos n)) (pack_int (pos ht)) (pack_int (pos ks))
          (pack_int (pos 160)) lock (length-left_pad payee) (length-pack_int (pos n))
          (length-pack_int (pos ht)) (length-pack_int (pos ks)) (length-pack_int (pos 160)) short
          (be_value-pack_int 160 (omega arith)) in
      (
        rw (← is_call) (
            rw (args_of-method sig_create args) (λ i. record {
              hash_locked = p0 i;
              expiration_time = p1 i;
              hash_type = p2 i;
              key_max_size = p3 i;
              hash_lock = tail i;
            })),
        positive,
      )
