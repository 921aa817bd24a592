-- ===== src/Swap/Decode.antt =====
-- wasm/swap.go: Encode and DecodeOffer, and DeletionRisk. Base64 and JSON are the parameter `OfferText`.
use ferry_web.Prelude.{
  ℕ, Bool, true, false, not, ◌&&◌, ◌||◌, Option, none, some, ◌++◌, ltb, ◌==◌, if◌then◌else◌, length,
  take, drop, is_empty, is_some,
}
use ferry_web.Prelude.Int.{ℤ, pos, ltb_ℤ, eqb_ℤ}
use ferry_web.Prelude.Text.{Text, runes, text_eq}
use ferry_web.Prelude.Bytes.{Bytes}
use ferry_web.Prelude.Hex.{hex_decode}
use ferry_web.Prelude.Result.{Result, ok, err}
use ferry_web.Contract.Build.{sha256_size}
use ferry_web.Swap.Record.{
  Swap, Role, Leg, network_params, is_initiator, is_participant, is_send, is_receive,
}
use ferry_web.Swap.Commit.{is_spent}
use ferry_web.Swap.Terms.{zero_amount}
use ferry_web.Swap.Offer.{Offer}
use ferry_web.Swap.Build.{
  Call, done, ◌>>=◌, ◌>>◌, check, or_fails, offer_unreadable, bad_hash, bad_pkh_hex,
  unknown_network, bad_leg, bad_role, bad_amount, bad_zenon_amount, zero_zenon_amount,
  bad_zenon_address, bad_zenon_token,
}
use ferry_web.Zenon.Address.{Bech32, parse_address, parse_token_standard}
use ferry_web.Zenon.Amount.{canonical_zenon_amount}

pub record OfferText : Type 0 where
  pub base64url : Bytes → Text
  pub base64url_decode : Text → Option Bytes
  pub json : Offer → Option Bytes
  pub json_decode : Bytes → Option Offer

abbrev pub offer_prefix : Text
offer_prefix = runes "swapoffer1:"

abbrev pub is_known_leg : Leg → Bool
is_known_leg l = is_send l || is_receive l

abbrev pub is_known_role : Role → Bool
is_known_role r = is_initiator r || is_participant r

abbrev pub is_ok : {E A : Type 0} → Result E A → Bool
is_ok (ok _) = true
is_ok (err _) = false

-- Hexadecimal of so many bytes.
abbrev pub sized : ℕ → Option Bytes → Bool
sized n none = false
sized n (some b) = length b == n

module _ (o : OfferText) (b : Bech32) where
  unfoldable pub encode : Offer → Option Text
  encode offer = elim (o.json offer) [
    | none ↦ none
    | some raw ↦ some (offer_prefix ++ o.base64url raw)
  ]

  -- The checks on an offer that was read.
  unfoldable pub checked : Offer → Call Offer
  unfolding hex_decode network_params canonical_zenon_amount zero_amount parse_address
      parse_token_standard
  checked offer = do
    check (eqb_ℤ offer.offer_version (pos 1)) offer_unreadable
    check (sized sha256_size (hex_decode offer.secret_hash)) bad_hash
    check (sized 20 (hex_decode offer.pkh)) bad_pkh_hex
    check (is_some (network_params offer.network)) unknown_network
    check (is_known_leg offer.btc_leg) bad_leg
    check (is_known_role offer.from_role) bad_role
    check (ltb_ℤ (pos 0) offer.amount_sats) bad_amount
    check (canonical_zenon_amount offer.zenon_amt) bad_zenon_amount
    check (is_empty offer.zenon_amt || not (zero_amount offer.zenon_amt)) zero_zenon_amount
    check (is_empty offer.zenon_addr || is_ok (parse_address b offer.zenon_addr)) bad_zenon_address
    check (is_empty offer.zenon_token || is_ok (parse_token_standard b offer.zenon_token))
        bad_zenon_token
    done offer

  unfoldable pub decode_offer : Text → Call Offer
  unfolding text_eq checked
  decode_offer s = do
    check
        (ltb (length offer_prefix) (length s)
          && text_eq (take (length offer_prefix) s) offer_prefix)
        offer_unreadable
    raw ← or_fails (o.base64url_decode (drop (length offer_prefix) s)) offer_unreadable
    offer ← or_fails (o.json_decode raw) offer_unreadable
    checked offer

-- Why a deletion may cost something; `none` for "".
pub data Risk : Type 0 where
  holds : ℤ → Risk
  may_be_funded : Risk

unfoldable pub deletion_risk : Swap → Option Risk
deletion_risk s =
    if is_spent s.state
    then none
    else if is_empty s.contract_addr
    then none
    else elim s.funding [ some f ↦ some (holds f.value) | none ↦ some may_be_funded ]
