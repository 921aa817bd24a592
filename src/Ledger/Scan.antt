-- ===== src/Ledger/Scan.antt =====
-- wasm/znn/ledger.go: scanForPreimage.
use ferry_web.Prelude.Bytes.{Bytes}
use ferry_web.Prelude.Text.{text_eq, text_eq_iff}
use ferry_web.Prelude.Result.{ok}
use ferry_web.Abi.Holds.{pack_unlock-Holds}
use ferry_web.Abi.Calls.{pack_unlock}
use ferry_web.Prelude.{
  ℕ, suc, ◌≤◌, ◌≡◌, sym, ap, ◌∙◌, ◌≢◌, inl, inr, false, Option, none, some, [], ◌∷◌, ◌++◌, arith,
  ltb, if◌then◌else◌, Bool-cases, length, take, drop, length-append, length-take, take-append,
  take-append-drop,
}

-- HashLockSize.
abbrev pub hash_lock_size : ℕ
hash_lock_size = 32

module _ (sha256 : Bytes → Bytes) where
  -- The window slides by one byte a round, until fewer than 32 are left.
  unfoldable pub scan_for_preimage : Bytes → Bytes → Option Bytes
  scan_for_preimage [] h = none
  scan_for_preimage (b ∷ data') h =
      let window = take hash_lock_size (b ∷ data') in
      let rest = scan_for_preimage data' h in
      if ltb (length (b ∷ data')) hash_lock_size
      then none
      else if text_eq (sha256 window) h
      then some window
      else rest

  lt-of_ltb : (n : ℕ) → ltb n 32 ≡ false → 32 ≤ n
  lt-of_ltb n h = ground arith

  lt-false : (n : ℕ) → 32 ≤ n → ltb n 32 ≡ false
  lt-false n h = ground arith

  -- What is found is a window of 32 bytes that hashes to the hash.
  pub scan_sound :
      (d h q : Bytes)
      → scan_for_preimage d h ≡ some q
      → (sha256 q ≡ h) × (length q ≡ 32) × (xs : Bytes) × (ys : Bytes) × (d ≡ xs ++ (q ++ ys))
  unfolding scan_for_preimage
  scan_sound [] h q e = cc
  scan_sound (b ∷ d) h q e = elim (Bool-cases (ltb (length (b ∷ d)) 32)) [
    | inl short ↦ ground (arith)
    | inr long ↦ elim (Bool-cases (text_eq (sha256 (take 32 (b ∷ d))) h)) [
      | inl found ↦
          let is_q : take 32 (b ∷ d) ≡ q = ground arith in
          (
            ap sha256 (sym is_q) ∙ (text_eq_iff (sha256 (take 32 (b ∷ d))) h).0 found,
            ap length (sym is_q)
                ∙ omega (arith, length-take 32 (b ∷ d), lt-of_ltb (length (b ∷ d)) long),
            [],
            drop 32 (b ∷ d),
            sym (take-append-drop 32 (b ∷ d)) ∙ ap (λ w. w ++ drop 32 (b ∷ d)) is_q,
          )
      | inr other ↦
          let (hashes, size, xs, ys, split) = scan_sound d h q (ground arith) in
          (hashes, size, b ∷ xs, ys, ap (◌∷◌ b) split)
    ]
  ]

  scan-prefix :
      (p ys h : Bytes) → length p ≡ 32 → sha256 p ≡ h → scan_for_preimage (p ++ ys) h ≡ some p
  unfolding scan_for_preimage
  scan-prefix [] ys h size e = absurd (omega arith)
  scan-prefix (c ∷ p) ys h size e =
      rw (take-append 32 (c ∷ p) ys size)
        (ground (arith, length-append (c ∷ p) ys, text_eq_iff (sha256 (c ∷ p)) h))

  scan-cons :
      (x : ℕ) (d h : Bytes)
      → 32 ≤ length d
      → scan_for_preimage (x ∷ d) h ≡ none
      → scan_for_preimage d h ≡ none
  unfolding scan_for_preimage
  scan-cons x d h size n =
      let long : ltb (suc (length d)) 32 ≡ false = lt-false (suc (length d)) (omega arith) in
      elim (Bool-cases (text_eq (sha256 (take 32 (x ∷ d))) h)) [
        | inl e ↦ cc (rw (long, e) at n)
        | inr e ↦ rw (long, e) at n
      ]

  -- A preimage of 32 bytes that stands anywhere in the data is not missed.
  pub scan_complete :
      (xs p ys h : Bytes)
      → length p ≡ 32
      → sha256 p ≡ h
      → scan_for_preimage (xs ++ (p ++ ys)) h ≢ none
  scan_complete [] p ys h size e n = cc (scan-prefix p ys h size e)
  scan_complete (x ∷ xs) p ys h size e n = scan_complete xs p ys h size e (
      scan-cons x (xs ++ (p ++ ys)) h
        (omega (arith, length-append xs (p ++ ys), length-append p ys)) n)

-- The data of a packed unlock, as a search of the ledger sees it, holds the preimage.
module _ (sha3 : Bytes → Bytes) (sha256 : Bytes → Bytes) where
  pub pack_unlock-scan :
      (id preimage h : Bytes) {call : Bytes}
      → pack_unlock sha3 id preimage ≡ ok call
      → length preimage ≡ 32
      → sha256 preimage ≡ h
      → scan_for_preimage sha256 call h ≢ none
  pack_unlock-scan id preimage h made size e n =
      let (xs, ys, split) = pack_unlock-Holds sha3 id preimage made in
      scan_complete sha256 xs preimage ys h size e (rw split at n)
