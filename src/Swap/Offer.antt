-- ===== src/Swap/Offer.antt =====
-- wasm/offerterms.go: CheckCreate, and wasm/swap.go: Offer.
use ferry_web.Swap.Record.{
  Role, initiator, participant, other_role, Leg, send, receive, other_leg, opposite, is_initiator,
  is_participant,
}
use ferry_web.Swap.Terms.{token_or_znn}
use ferry_web.Prelude.{
  ℕ, suc, Bool, true, false, not, ◌&&◌, ◌||◌, Option, none, some, List, [], ◌∷◌, ◌++◌, ltb, ◌==◌,
  if◌then◌else◌, is_empty,
}
use ferry_web.Prelude.Int.{ℤ, eqb_ℤ}
use ferry_web.Prelude.Text.{Text, text_eq, trim_left, trim_right, trim_space, equal_fold}

pub record Offer : Type 0 where
  pub offer_version : ℤ
  pub network : Text
  pub from_role : Role
  pub secret_hash : Text
  pub pkh : Text
  pub btc_leg : Leg
  pub amount_sats : ℤ
  pub lock_time : ℤ
  pub zenon_addr : Text
  pub zenon_token : Text
  pub zenon_amt : Text
  pub note : Text

pub record CreateParams : Type 0 where
  pub role : Role
  pub leg : Leg
  pub amount_sats : ℤ
  pub dest_addr : Text
  pub lock_hours : ℤ
  pub secret_hash_hex : Text
  pub counterparty_pkh_hex : Text
  pub zenon_self_address : Text
  pub zenon_peer_address : Text
  pub zenon_token : Text
  pub zenon_amount : Text
  pub offer : Text

abbrev pub opposite_role : Role → Role
opposite_role r = if is_initiator r then participant else initiator

unfoldable pub role_eq : Role → Role → Bool
unfolding text_eq
role_eq initiator initiator = true
role_eq participant participant = true
role_eq (other_role a) (other_role b) = text_eq a b
role_eq _ _ = false

unfoldable pub leg_eq : Leg → Leg → Bool
unfolding text_eq
leg_eq send send = true
leg_eq receive receive = true
leg_eq (other_leg a) (other_leg b) = text_eq a b
leg_eq _ _ = false

unfoldable pub same_hex : Text → Text → Bool
unfolding equal_fold trim_space
same_hex a b = equal_fold (trim_space a) (trim_space b)

-- strings.Cut(s, "."): what stands before the first point, and after it where there is one.
unfoldable pub before_point : Text → Text
before_point [] = []
before_point (c ∷ s) = let rest = before_point s in if c == 46 then [] else c ∷ rest

unfoldable pub after_point : Text → Option Text
after_point [] = none
after_point (c ∷ s) = let rest = after_point s in if c == 46 then some s else rest

unfoldable pub points : Text → ℕ
points [] = 0
points (c ∷ s) = let rest = points s in if c == 46 then suc rest else rest

-- strings.ContainsAny(s, "-eE").
unfoldable pub has_sign_or_exponent : Text → Bool
has_sign_or_exponent [] = false
has_sign_or_exponent (c ∷ s) = c == 45 || c == 101 || c == 69 || has_sign_or_exponent s

unfoldable pub trim_plus : Text → Text
trim_plus [] = []
trim_plus (c ∷ s) = if c == 43 then s else c ∷ s

unfoldable pub or_zero : Text → Text
or_zero [] = 48 ∷ []
or_zero (c ∷ s) = c ∷ s

unfoldable pub normal_decimal : Text → Text
unfolding trim_space trim_left trim_right before_point after_point points has_sign_or_exponent
    trim_plus or_zero
normal_decimal typed =
    let s = trim_space (trim_plus (trim_space typed)) in
    let whole = or_zero (trim_left (λ c. c == 48) (before_point s)) in
    if is_empty s
    then []
    else if has_sign_or_exponent s || ltb 1 (points s)
    then s
    else elim (after_point s) [
      | none ↦ whole
      | some digits ↦
          let frac = trim_right (λ c. c == 48) digits in
          if is_empty frac then whole else whole ++ (46 ∷ frac)
    ]

-- The terms that differ, in the order of the code.
pub data Differs : Type 0 where
  network leg role secret_hash amount token zenon_amount peer_address pubkey_hash : Differs

abbrev pub differs_if : Bool → Differs → List Differs
differs_if true d = d ∷ []
differs_if false d = []

-- CheckCreate, with no error where nothing differs.
unfoldable pub check_create : Offer → Text → CreateParams → List Differs
unfolding equal_fold trim_space leg_eq role_eq same_hex token_or_znn text_eq normal_decimal
check_create o net p =
    differs_if (not (equal_fold (trim_space o.network) (trim_space net))) network
    ++ (differs_if (not (leg_eq p.leg (opposite o.btc_leg))) leg
        ++ (differs_if (not (role_eq p.role (opposite_role o.from_role))) role
            ++ (differs_if (is_participant p.role && not (same_hex o.secret_hash p.secret_hash_hex))
                  secret_hash
                ++ (differs_if (not (eqb_ℤ o.amount_sats p.amount_sats)) amount
                    ++ (differs_if
                          (not (
                            text_eq (token_or_znn (trim_space o.zenon_token))
                              (token_or_znn (trim_space p.zenon_token))))
                          token
                        ++ (differs_if
                              (not (
                                text_eq (normal_decimal o.zenon_amt)
                                  (normal_decimal p.zenon_amount)))
                              zenon_amount
                            ++ (differs_if
                                  (not (is_empty o.zenon_addr)
                                    && not (is_empty p.zenon_peer_address)
                                    && not (
                                        text_eq (trim_space o.zenon_addr)
                                          (trim_space p.zenon_peer_address)))
                                  peer_address
                                ++ differs_if
                                    (not (is_empty o.pkh)
                                      && not (is_empty p.counterparty_pkh_hex)
                                      && not (same_hex o.pkh p.counterparty_pkh_hex))
                                    pubkey_hash)))))))
