-- ===== src/Contract/Secret.antt =====
-- wasm/htlc.go: ExtractSecret, over the package's PushedData (`pushed`, `none` where the script is
-- malformed) and over SHA-256.
use ferry_web.Prelude.Bytes.{Bytes}
use ferry_web.Prelude.Text.{text_eq, text_eq_iff}
use ferry_web.Prelude.{
  ◌≡◌, subst, ◌≢◌, inl, inr, Option, none, some, List, [], ◌∷◌, arith, if◌then◌else◌, Option-cases,
  Within,
}

module _ (sha256 : Bytes → Bytes) where
  -- The inner loop, over the pushes of one script.
  unfoldable pub first_match : List Bytes → Bytes → Option Bytes
  first_match [] h = none
  first_match (p ∷ ps) h =
      let rest = first_match ps h in if text_eq (sha256 p) h then some p else rest

  first_match-some :
      (ps : List Bytes) (h p : Bytes) → first_match ps h ≡ some p → (sha256 p ≡ h) × Within p ps
  unfolding first_match
  first_match-some [] h p e = cc
  first_match-some (q ∷ ps) h p e =
      ground (arith, first_match-some ps h p, text_eq_iff (sha256 q) h)

  first_match-none :
      (ps : List Bytes) (h p : Bytes) → first_match ps h ≡ none → Within p ps → sha256 p ≢ h
  unfolding first_match
  first_match-none [] h p e w = absurd w
  first_match-none (q ∷ ps) h p e w =
      ground (arith, first_match-none ps h p, text_eq_iff (sha256 q) h)

  module _ (pushed : Bytes → Option (List Bytes)) where
    unfoldable pub extract_secret : List Bytes → Bytes → Option Bytes
    extract_secret [] h = none
    extract_secret (s ∷ ss) h = elim (pushed s) [
      | none ↦ extract_secret ss h
      | some ps ↦ elim (first_match ps h) [ some p ↦ some p | none ↦ extract_secret ss h ]
    ]

    -- The push `p` stands in a script of the list that can be read.
    pub data Reveals (p : Bytes) : List Bytes → Type 0 where
      here :
          {s : Bytes} {ss : List Bytes} {ps : List Bytes}
          → pushed s ≡ some ps
          → Within p ps
          → Reveals p (s ∷ ss)
      later : {s : Bytes} {ss : List Bytes} → Reveals p ss → Reveals p (s ∷ ss)

    -- A secret that is extracted hashes to the swap's hash, and was pushed by one of the scripts that can
    -- be read.
    pub extract_secret_sound :
        (ss : List Bytes) (h : Bytes) {p : Bytes}
        → extract_secret ss h ≡ some p
        → (sha256 p ≡ h) × Reveals p ss
    unfolding extract_secret
    extract_secret_sound [] h e = cc
    extract_secret_sound (s ∷ ss) h {p} e = elim (Option-cases (pushed s)) [
      | inl bad ↦
          let (hashes, r) = extract_secret_sound ss h (rw (bad, extract_secret) at e) in
          (hashes, later r)
      | inr (ps, good) ↦ elim (Option-cases (first_match ps h)) [
        | inl nothing ↦
            let (hashes, r) = extract_secret_sound ss h (rw (good, nothing, extract_secret) at e) in
            (hashes, later r)
        | inr (q, found) ↦
            let (hashes, w) = first_match-some ps h q found in
            let q_is : q ≡ p = cc (rw (good, found, extract_secret) at e) in
            subst (λ x. (sha256 x ≡ h) × Reveals x (s ∷ ss)) q_is (hashes, here good w)
      ]
    ]

    -- Where one of the scripts that can be read pushes a preimage of the hash, a secret is found.
    pub extract_secret_complete :
        (p : Bytes) (ss : List Bytes) (h : Bytes)
        → Reveals p ss
        → sha256 p ≡ h
        → extract_secret ss h ≢ none
    unfolding extract_secret
    extract_secret_complete p _ h (here {s} {ss} {ps} e w) eq n =
        elim (Option-cases (first_match ps h)) [
          | inl nothing ↦ first_match-none ps h p nothing w eq
          | inr (q, found) ↦ cc (rw (e, found, extract_secret) at n)
        ]
    extract_secret_complete p _ h (later {s} {ss} r) eq n = elim (Option-cases (pushed s)) [
      | inl bad ↦ extract_secret_complete p ss h r eq (rw (bad, extract_secret) at n)
      | inr (ps, good) ↦ elim (Option-cases (first_match ps h)) [
        | inl nothing ↦
            extract_secret_complete p ss h r eq (rw (good, nothing, extract_secret) at n)
        | inr (q, found) ↦ cc (rw (good, found, extract_secret) at n)
      ]
    ]
