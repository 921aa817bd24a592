-- ===== src/Swap/Decoded.antt =====
-- wasm/swap.go: an offer that was encoded is read back, and every offer that is read is well formed.
use ferry_web.Prelude.{
  ◌<◌, ◌≡◌, refl, sym, ap, subst, ◌∙◌, ◌⊎◌, inl, inr, Bool, true, false, not, ◌&&◌, ◌||◌, some, [],
  ◌∷◌, ◌++◌, arith, ltb, Option-cases, length, take, drop, is_empty, is_some,
}
use ferry_web.Prelude.Int.{pos, ◌<ℤ◌, ltb_ℤ, eqb_ℤ, eqb_ℤ_iff, ltb_ℤ_iff}
use ferry_web.Prelude.Text.{Text, text_eq, text_eq_iff}
use ferry_web.Prelude.Bytes.{Bytes}
use ferry_web.Prelude.Hex.{hex_decode}
use ferry_web.Swap.Record.{
  network_params, Leg, send, receive, other_leg, Role, initiator, participant, other_role,
}
use ferry_web.Swap.Terms.{zero_amount}
use ferry_web.Swap.Offer.{Offer}
use ferry_web.Swap.Build.{
  done, done_inj, check-then, check-pass, or_fails-then, offer_unreadable, bad_hash, bad_pkh_hex,
  unknown_network, bad_leg, bad_role, bad_amount, bad_zenon_amount, zero_zenon_amount,
  bad_zenon_address, bad_zenon_token,
}
use ferry_web.Zenon.Address.{Bech32, parse_address, parse_token_standard}
use ferry_web.Zenon.Amount.{canonical_zenon_amount}
use ferry_web.Swap.Decode.{
  OfferText, offer_prefix, is_known_leg, is_known_role, is_ok, sized, encode, checked, decode_offer,
}

-- Base64 and JSON read back what they write, and write something.
pub record IsOfferText (o : OfferText) : Type 0 where
  pub base64-decode : (raw : Bytes) → o.base64url_decode (o.base64url raw) ≡ some raw
  pub base64-some : (raw : Bytes) → 0 < length raw → 0 < length (o.base64url raw)
  pub json-some : (offer : Offer) (raw : Bytes) → o.json offer ≡ some raw → 0 < length raw
  pub json-decode :
      (offer : Offer) (raw : Bytes) → o.json offer ≡ some raw → o.json_decode raw ≡ some offer

-- What an offer has to be.
pub record IsOffer (b : Bech32) (offer : Offer) : Type 0 where
  pub version : offer.offer_version ≡ pos 1
  pub hash : sized 32 (hex_decode offer.secret_hash) ≡ true
  pub pkh : sized 20 (hex_decode offer.pkh) ≡ true
  pub network : is_some (network_params offer.network) ≡ true
  pub leg : (offer.btc_leg ≡ send) ⊎ (offer.btc_leg ≡ receive)
  pub role : (offer.from_role ≡ initiator) ⊎ (offer.from_role ≡ participant)
  pub amount : pos 0 <ℤ offer.amount_sats
  pub decimal : canonical_zenon_amount offer.zenon_amt ≡ true
  pub not_zero : (offer.zenon_amt ≡ []) ⊎ (zero_amount offer.zenon_amt ≡ false)
  pub address : (offer.zenon_addr ≡ []) ⊎ (is_ok (parse_address b offer.zenon_addr) ≡ true)
  pub token : (offer.zenon_token ≡ []) ⊎ (is_ok (parse_token_standard b offer.zenon_token) ≡ true)

known_leg : (l : Leg) → is_known_leg l ≡ true → (l ≡ send) ⊎ (l ≡ receive)
known_leg send h = inl refl
known_leg receive h = inr refl
known_leg (other_leg t) h = cc h

known_role : (r : Role) → is_known_role r ≡ true → (r ≡ initiator) ⊎ (r ≡ participant)
known_role initiator h = inl refl
known_role participant h = inr refl
known_role (other_role t) h = cc h

some_inj : {x y : Text} → some x ≡ some y → x ≡ y
some_inj h = cc h

or_empty : (s : Text) (c : Bool) → (is_empty s || c) ≡ true → (s ≡ []) ⊎ (c ≡ true)
or_empty [] c h = inl refl
or_empty (x ∷ s) c h = inr h

or_not : (s : Text) (c : Bool) → (is_empty s || not c) ≡ true → (s ≡ []) ⊎ (c ≡ false)
or_not [] c h = inl refl
or_not (x ∷ s) c h = inr (ground arith)

empty_or : (s : Text) (c : Bool) → (s ≡ []) ⊎ (c ≡ true) → (is_empty s || c) ≡ true
empty_or s c h = ground arith

empty_or_not : (s : Text) (c : Bool) → (s ≡ []) ⊎ (c ≡ false) → (is_empty s || not c) ≡ true
empty_or_not s c h = ground arith

leg_known : (l : Leg) → (l ≡ send) ⊎ (l ≡ receive) → is_known_leg l ≡ true
leg_known l h = ground arith

role_known : (r : Role) → (r ≡ initiator) ⊎ (r ≡ participant) → is_known_role r ≡ true
role_known r h = ground arith

prefixed :
    (t : Text)
    → 0 < length t
    → (ltb 11 (length (offer_prefix ++ t)) && text_eq (take 11 (offer_prefix ++ t)) offer_prefix)
      ≡ true
prefixed t h = ground (arith, text_eq_iff offer_prefix offer_prefix)

module _ (o : OfferText) (b : Bech32) where
  checked-IsOffer :
      (offer result : Offer) → checked o b offer ≡ done result → (result ≡ offer) × IsOffer b offer
  unfolding checked
  checked-IsOffer offer result e =
      check-then (eqb_ℤ offer.offer_version (pos 1)) offer_unreadable _ e λ version e.
        check-then (sized 32 (hex_decode offer.secret_hash)) bad_hash _ e λ hash e.
          check-then (sized 20 (hex_decode offer.pkh)) bad_pkh_hex _ e λ pkh e.
            check-then (is_some (network_params offer.network)) unknown_network _ e λ network e.
              check-then (is_known_leg offer.btc_leg) bad_leg _ e λ leg e.
                check-then (is_known_role offer.from_role) bad_role _ e λ role e.
                  check-then (ltb_ℤ (pos 0) offer.amount_sats) bad_amount _ e λ amount e.
                    check-then (canonical_zenon_amount offer.zenon_amt) bad_zenon_amount _ e
                      λ decimal e.
                        check-then (is_empty offer.zenon_amt || not (zero_amount offer.zenon_amt))
                          zero_zenon_amount _ e
                          λ not_zero e.
                            check-then
                              (is_empty offer.zenon_addr
                                || is_ok (parse_address b offer.zenon_addr))
                              bad_zenon_address _ e
                              λ address e.
                                check-then
                                  (is_empty offer.zenon_token
                                    || is_ok (parse_token_standard b offer.zenon_token))
                                  bad_zenon_token _ e
                                  λ token e. (
                                    sym (done_inj e),
                                    record {
                                      version = (eqb_ℤ_iff offer.offer_version (pos 1)).0 version;
                                      hash = hash;
                                      pkh = pkh;
                                      network = network;
                                      leg = known_leg offer.btc_leg leg;
                                      role = known_role offer.from_role role;
                                      amount = (ltb_ℤ_iff (pos 0) offer.amount_sats).0 amount;
                                      decimal = decimal;
                                      not_zero =
                                          or_not offer.zenon_amt (zero_amount offer.zenon_amt)
                                            not_zero;
                                      address = or_empty offer.zenon_addr _ address;
                                      token = or_empty offer.zenon_token _ token;
                                    },
                                  )

  checked-done : (offer : Offer) → IsOffer b offer → checked o b offer ≡ done offer
  unfolding checked
  checked-done offer f =
      check-pass _ offer_unreadable _ ((eqb_ℤ_iff offer.offer_version (pos 1)).1 f.version)
      ∙ check-pass _ bad_hash _ f.hash
      ∙ check-pass _ bad_pkh_hex _ f.pkh
      ∙ check-pass _ unknown_network _ f.network
      ∙ check-pass _ bad_leg _ (leg_known offer.btc_leg f.leg)
      ∙ check-pass _ bad_role _ (role_known offer.from_role f.role)
      ∙ check-pass _ bad_amount _ ((ltb_ℤ_iff (pos 0) offer.amount_sats).1 f.amount)
      ∙ check-pass _ bad_zenon_amount _ f.decimal
      ∙ check-pass _ zero_zenon_amount _
          (empty_or_not offer.zenon_amt (zero_amount offer.zenon_amt) f.not_zero)
      ∙ check-pass _ bad_zenon_address _ (empty_or offer.zenon_addr _ f.address)
      ∙ check-pass _ bad_zenon_token _ (empty_or offer.zenon_token _ f.token)

  encode-eq_some :
      (offer : Offer) (s : Text)
      → encode o b offer ≡ some s
      → (raw : Bytes) × (o.json offer ≡ some raw) × (s ≡ offer_prefix ++ o.base64url raw)
  unfolding encode
  encode-eq_some offer s e = elim (Option-cases (o.json offer)) [
    | inl failed ↦ cc (rw (failed, encode) at e)
    | inr (raw, made) ↦ (raw, made, some_inj (sym (rw (made, encode) at e)))
  ]

  decode_prefixed :
      (offer : Offer) (raw : Bytes)
      → 0 < length (o.base64url raw)
      → o.base64url_decode (o.base64url raw) ≡ some raw
      → o.json_decode raw ≡ some offer
      → IsOffer b offer
      → decode_offer o b (offer_prefix ++ o.base64url raw) ≡ done offer
  unfolding decode_offer
  decode_prefixed offer raw long read parsed fine =
      check-pass _ offer_unreadable _ (prefixed (o.base64url raw) long)
      ∙ rw (read, parsed) (checked-done offer fine)

  -- An offer that was read is of version 1, names a known network, one of the two legs and one of the two
  -- roles, carries a hash of 32 and a key hash of 20 bytes, and passes the code's tests of
  -- its amounts and, where they are given, of its address and its token.
  pub decode_offer-IsOffer :
      (s : Text) (offer : Offer) → decode_offer o b s ≡ done offer → IsOffer b offer
  unfolding decode_offer
  decode_offer-IsOffer s offer e =
      check-then (ltb 11 (length s) && text_eq (take 11 s) offer_prefix) offer_unreadable _ e
        λ prefixed e.
          or_fails-then (o.base64url_decode (drop 11 s)) offer_unreadable _ e λ raw read e.
            or_fails-then (o.json_decode raw) offer_unreadable _ e λ found parsed e.
              let (same, fine) = checked-IsOffer found offer e in subst (IsOffer b) (sym same) fine

  -- A well-formed offer that was encoded is read back as it was.
  pub encode-decode_offer :
      (offer : Offer) (s : Text)
      → IsOfferText o
      → IsOffer b offer
      → encode o b offer ≡ some s
      → decode_offer o b s ≡ done offer
  unfolding decode_offer
  encode-decode_offer offer s laws fine e =
      let (raw, made, is_s) = encode-eq_some offer s e in
      let long = laws.base64-some raw (laws.json-some offer raw made) in
      ap (decode_offer o b) is_s
      ∙ decode_prefixed offer raw long (laws.base64-decode raw) (laws.json-decode offer raw made)
          fine
