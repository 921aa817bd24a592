-- ===== src/Manager/Allowed.antt =====
-- wasm/manager.go: what Create asks of its parameters, and who has a secret then.
use ferry_web.Prelude.{
  ◌≡◌, refl, subst, ◌⊎◌, inl, inr, true, false, not, ◌||◌, some, List, [], ◌∷◌, ◌==◌, ==_iff,
  Bool-cases, length, is_empty, is_some,
}
use ferry_web.Prelude.Int.{ℤ, pos, ◌<ℤ◌, ltb_ℤ, ltb_ℤ_iff}
use ferry_web.Prelude.Text.{Text, trim_space}
use ferry_web.Prelude.Bytes.{Bytes}
use ferry_web.Prelude.Duration.{second}
use ferry_web.Prelude.Hex.{hex_decode}
use ferry_web.Swap.Record.{
  Swap, Network, network_params, is_initiator, is_participant, is_send, is_receive, log,
}
use ferry_web.Swap.Offer.{Offer, CreateParams, check_create}
use ferry_web.Swap.Decode.{decode_offer}
use ferry_web.Swap.Build.{
  done, done_inj, check-then, or_fails-then, call-then, bad_role, bad_leg, bad_amount,
  unknown_network, no_dest_addr, bad_address, hash_missing, bad_hash, no_randomness,
}
use ferry_web.Bitcoin.Tx.{address_script}
use ferry_web.Manager.Create.{Drawn, Libraries, agrees_with_offer, check_params, with_secret}

module _ (l : Libraries) where
  -- Who has a secret after a create, and with what hash.
  abbrev pub Knows : CreateParams → Bytes → Bytes → Type 0
  Knows p secret hash =
      ((is_initiator p.role ≡ true) × (hash ≡ l.sha256 secret))
      ⊎ ((is_initiator p.role ≡ false)
          × (secret ≡ [])
          × (hex_decode p.secret_hash_hex ≡ some hash)
          × (length hash ≡ 32))

  abbrev pub HasSecret : CreateParams → Swap → Type 0
  HasSecret p s = Knows p s.secret s.secret_hash

  pub with_secret-HasSecret :
      (now : ℤ) (drawn : Drawn) (p : CreateParams) (s s' : Swap)
      → s.secret ≡ []
      → with_secret l now drawn p s ≡ done s'
      → HasSecret p s'
  unfolding with_secret log
  with_secret-HasSecret now drawn p s s' blank e = elim (Bool-cases (is_initiator p.role)) [
    | inl first ↦
        or_fails-then drawn.secret no_randomness _ (rw (first, with_secret) at e)
          λ secret _ e₁. subst (HasSecret p) (done_inj e₁) (inl (first, refl))
    | inr second ↦
        check-then (not (is_empty p.secret_hash_hex)) hash_missing _ (rw (second, with_secret) at e)
          λ _ e₁. or_fails-then (hex_decode p.secret_hash_hex) bad_hash _ e₁ λ hash read e₂.
            check-then (length hash == 32) bad_hash _ e₂ λ sized e₃.
              subst (HasSecret p) (done_inj e₃)
                (inr (second, blank, read, (==_iff (length hash) 32).0 sized))
  ]

  -- The offer that a create answers, where there is one.
  abbrev pub AgreesWithOffer : Text → CreateParams → Type 0
  AgreesWithOffer net p =
      (is_empty (trim_space p.offer) ≡ true)
      ⊎ ((o : Offer) × (decode_offer l.offers l.bech32 (trim_space p.offer) ≡ done o)
          × (check_create o net p ≡ []))

  empty_nil : {A : Type 0} (xs : List A) → is_empty xs ≡ true → xs ≡ []
  empty_nil [] h = refl
  empty_nil (x ∷ xs) h = cc h

  agrees_with_offer-done :
      (net : Text) (p : CreateParams) (u : Unit {0})
      → agrees_with_offer l net p ≡ done u
      → AgreesWithOffer net p
  unfolding agrees_with_offer
  agrees_with_offer-done net p u e = elim (Bool-cases (is_empty (trim_space p.offer))) [
    | inl without ↦ inl without
    | inr given ↦
        call-then (decode_offer l.offers l.bech32 (trim_space p.offer)) _
          (rw (given, agrees_with_offer) at e)
          λ o read e₁. elim (Bool-cases (is_empty (check_create o net p))) [
            | inl same ↦ inr (o, read, empty_nil (check_create o net p) same)
            | inr differs ↦ cc (rw differs at e₁)
          ]
  ]

  -- What was asked of the parameters.
  pub record IsAllowed (net : Text) (p : CreateParams) : Type 0 where
    pub role : (is_initiator p.role || is_participant p.role) ≡ true
    pub leg : (is_send p.leg || is_receive p.leg) ≡ true
    pub amount : pos 0 <ℤ p.amount_sats
    pub params : Network
    pub known : network_params net ≡ some params
    pub agreed : AgreesWithOffer net p
    pub pays : is_some (address_script l.btcd (trim_space p.dest_addr) params) ≡ true

  pub check_params-IsAllowed :
      (net : Text) (p : CreateParams) (u : Unit {0})
      → check_params l net p ≡ done u
      → IsAllowed net p
  unfolding check_params
  check_params-IsAllowed net p u e =
      check-then (is_initiator p.role || is_participant p.role) bad_role _ e λ r e₁.
        check-then (is_send p.leg || is_receive p.leg) bad_leg _ e₁ λ g e₂.
          check-then (ltb_ℤ (pos 0) p.amount_sats) bad_amount _ e₂ λ a e₃.
            or_fails-then (network_params net) unknown_network _ e₃ λ n k e₄.
              call-then (agrees_with_offer l net p) _ e₄ λ v agrees e₅.
                check-then (not (is_empty (trim_space p.dest_addr))) no_dest_addr _ e₅ λ _ e₆.
                  check-then (is_some (address_script l.btcd (trim_space p.dest_addr) n))
                    bad_address _ e₆
                    λ pays _. record {
                      role = r;
                      leg = g;
                      amount = (ltb_ℤ_iff (pos 0) p.amount_sats).0 a;
                      params = n;
                      known = k;
                      agreed = agrees_with_offer-done net p v agrees;
                      pays = pays;
                    }
