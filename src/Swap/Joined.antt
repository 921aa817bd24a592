-- ===== src/Swap/Joined.antt =====
-- wasm/offerterms.go: what a create that passes CheckCreate agrees on with the offer.
use ferry_web.Swap.Record.{
  Role, initiator, participant, other_role, Leg, send, receive, other_leg, opposite, is_participant,
  is_initiator, is_send,
}
use ferry_web.Swap.Terms.{token_or_znn}
use ferry_web.Swap.Offer.{
  Offer, CreateParams, Differs, opposite_role, role_eq, leg_eq, same_hex, normal_decimal,
  differs_if, check_create,
}
use ferry_web.Zenon.Amount.{is_plain_decimal}
use ferry_web.Swap.Wellformed.{is_plain_decimal-IsDecimal}
use ferry_web.Swap.Amounts.{Digits, SameValue, IsDecimal-Digits, normal_decimal-SameValue}
use ferry_web.Prelude.{
  Bool-cases, inl, inr, is_empty, if◌then◌else◌, ◌≡◌, refl, ap, ◌⊎◌, Bool, true, false, not, ◌&&◌,
  List, [], ◌++◌, map, arith,
}
use ferry_web.Prelude.Int.{ℤ, eqb_ℤ, eq_of_parts}
use ferry_web.Prelude.Text.{Text, runes, text_eq, text_eq_iff, trim_space, equal_fold_iff, fold}

role_eq-eq : (a b : Role) → role_eq a b ≡ true → a ≡ b
unfolding role_eq
role_eq-eq (other_role a) (other_role b) h = ap other_role ((text_eq_iff a b).0 h)
role_eq-eq initiator initiator h = refl
role_eq-eq participant participant h = refl
role_eq-eq _ _ h = cc

leg_eq-eq : (a b : Leg) → leg_eq a b ≡ true → a ≡ b
unfolding leg_eq
leg_eq-eq (other_leg a) (other_leg b) h = ap other_leg ((text_eq_iff a b).0 h)
leg_eq-eq send send h = refl
leg_eq-eq receive receive h = refl
leg_eq-eq _ _ h = cc

differs_if-nil :
    (b : Bool) (d : Differs) (rest : List Differs)
    → differs_if b d ++ rest ≡ []
    → (b ≡ false) × (rest ≡ [])
differs_if-nil true d rest h = cc
differs_if-nil false d rest h = (refl, h)

not-false : (b : Bool) → not b ≡ false → b ≡ true
not-false b h = ground arith

eqb_ℤ-false : (a b : ℤ) → not (eqb_ℤ a b) ≡ false → a ≡ b
eqb_ℤ-false a b h = eq_of_parts a b (ground arith)

-- The token that a text names: blank means ZNN.
abbrev pub named_token : Text → Text
named_token t = if is_empty (trim_space t) then runes "zts1znnxxxxxxxxxxxxx9z4ulx" else trim_space t

-- The terms of an offer and of the create that answers it: one trade, seen from its two sides.
pub record IsJoin (o : Offer) (net : Text) (p : CreateParams) : Type 0 where
  pub network : map fold (trim_space o.network) ≡ map fold (trim_space net)
  pub leg :
      ((o.btc_leg ≡ send) × (p.leg ≡ receive)) ⊎ ((is_send o.btc_leg ≡ false) × (p.leg ≡ send))
  pub role :
      ((o.from_role ≡ initiator) × (p.role ≡ participant))
      ⊎ ((is_initiator o.from_role ≡ false) × (p.role ≡ initiator))
  pub hash :
      (is_participant p.role ≡ false)
      ⊎ (map fold (trim_space o.secret_hash) ≡ map fold (trim_space p.secret_hash_hex))
  pub amount : o.amount_sats ≡ p.amount_sats
  pub token : named_token o.zenon_token ≡ named_token p.zenon_token
  pub zenon_amount :
      (is_plain_decimal o.zenon_amt ≡ false)
      ⊎ ((is_plain_decimal p.zenon_amount ≡ false)
          ⊎ ((a : Digits o.zenon_amt) × (b : Digits p.zenon_amount) × SameValue o.zenon_amt
                p.zenon_amount a b))
  pub peer :
      (is_empty o.zenon_addr ≡ true)
      ⊎ ((is_empty p.zenon_peer_address ≡ true)
          ⊎ (trim_space o.zenon_addr ≡ trim_space p.zenon_peer_address))

same_amount :
    (s t : Text)
    → normal_decimal s ≡ normal_decimal t
    → (is_plain_decimal s ≡ false)
      ⊎ ((is_plain_decimal t ≡ false) ⊎ ((a : Digits s) × (b : Digits t) × SameValue s t a b))
same_amount s t h = elim (Bool-cases (is_plain_decimal s)) [
  | inr other ↦ inl other
  | inl plain ↦ elim (Bool-cases (is_plain_decimal t)) [
    | inr other ↦ inr (inl other)
    | inl plain' ↦
        let a = IsDecimal-Digits s (is_plain_decimal-IsDecimal s plain) in
        let b = IsDecimal-Digits t (is_plain_decimal-IsDecimal t plain') in
        inr (inr (a, b, normal_decimal-SameValue s t a b h))
  ]
]

other_leg_of :
    (a b : Leg) → b ≡ opposite a → ((a ≡ send) × (b ≡ receive)) ⊎ ((is_send a ≡ false) × (b ≡ send))
other_leg_of send b h = inl (refl, h)
other_leg_of receive b h = inr (refl, h)
other_leg_of (other_leg t) b h = inr (refl, h)

other_role_of :
    (a b : Role)
    → b ≡ opposite_role a
    → ((a ≡ initiator) × (b ≡ participant)) ⊎ ((is_initiator a ≡ false) × (b ≡ initiator))
other_role_of initiator b h = inl (refl, h)
other_role_of participant b h = inr (refl, h)
other_role_of (other_role t) b h = inr (refl, h)

peer_agrees :
    (a b : Text)
    → (not (is_empty a) && not (is_empty b) && not (text_eq (trim_space a) (trim_space b))) ≡ false
    → (is_empty a ≡ true) ⊎ ((is_empty b ≡ true) ⊎ (trim_space a ≡ trim_space b))
peer_agrees a b h = ground (arith, text_eq_iff (trim_space a) (trim_space b))

hash_agrees :
    (o : Offer) (p : CreateParams)
    → (is_participant p.role && not (same_hex o.secret_hash p.secret_hash_hex)) ≡ false
    → (is_participant p.role ≡ false)
      ⊎ (map fold (trim_space o.secret_hash) ≡ map fold (trim_space p.secret_hash_hex))
unfolding same_hex
hash_agrees o p h =
    ground (arith, equal_fold_iff (trim_space o.secret_hash) (trim_space p.secret_hash_hex))

-- A create that passes is on the network of the offer and takes the other leg and the other role: the
-- participant's where the offer is the initiator's, and the initiator's otherwise. The amounts of bitcoin
-- are the same, and the tokens, where blank means ZNN; the Zenon amounts, where both are plain decimals,
-- have the same value, however they are written. A participant has the offer's secret hash, but for
-- the case of its hex, and the counterparty's Zenon address is the offer's, where both are given.
pub check_create-IsJoin :
    (o : Offer) (net : Text) (p : CreateParams) → check_create o net p ≡ [] → IsJoin o net p
unfolding check_create token_or_znn
check_create-IsJoin o net p h =
    let (h0, r0) = differs_if-nil _ _ _ h in
    let (h1, r1) = differs_if-nil _ _ _ r0 in
    let (h2, r2) = differs_if-nil _ _ _ r1 in
    let (h3, r3) = differs_if-nil _ _ _ r2 in
    let (h4, r4) = differs_if-nil _ _ _ r3 in
    let (h5, r5) = differs_if-nil _ _ _ r4 in
    let (h6, r6) = differs_if-nil _ _ _ r5 in
    let (h7, r7) = differs_if-nil _ _ _ r6 in
    record {
      network = (equal_fold_iff (trim_space o.network) (trim_space net)).0 (not-false _ h0);
      leg = other_leg_of o.btc_leg p.leg (leg_eq-eq p.leg (opposite o.btc_leg) (not-false _ h1));
      role =
          other_role_of o.from_role p.role
            (role_eq-eq p.role (opposite_role o.from_role) (not-false _ h2));
      hash = hash_agrees o p h3;
      amount = eqb_ℤ-false o.amount_sats p.amount_sats h4;
      token = (text_eq_iff _ _).0 (not-false _ h5);
      zenon_amount = same_amount o.zenon_amt p.zenon_amount ((text_eq_iff _ _).0 (not-false _ h6));
      peer = peer_agrees o.zenon_addr p.zenon_peer_address h7;
    }
