-- ===== src/Tests/Offers.antt =====
-- The theorem on offers at one offer.
use ferry_web.Swap.Record.{initiator, participant, send, receive}
use ferry_web.Swap.Terms.{token_or_znn}
use ferry_web.Swap.Offer.{
  Offer, CreateParams, role_eq, leg_eq, same_hex, normal_decimal, check_create,
}
use ferry_web.Swap.Joined.{IsJoin, check_create-IsJoin}
use ferry_web.Prelude.{◌≡◌, refl, []}
use ferry_web.Prelude.Int.{pos}
use ferry_web.Prelude.Text.{runes, text_eq, trim_left, trim_right, trim_space, equal_fold, fold}

abbrev offer : Offer
offer = record {
  offer_version = pos 1;
  network = runes "mainnet";
  from_role = initiator;
  secret_hash = runes "AB";
  pkh = [];
  btc_leg = send;
  amount_sats = pos 1000;
  lock_time = pos 0;
  zenon_addr = [];
  zenon_token = [];
  zenon_amt = runes "10";
  note = [];
}

abbrev join : CreateParams
join = record {
  role = participant;
  leg = receive;
  amount_sats = pos 1000;
  dest_addr = [];
  lock_hours = pos 0;
  secret_hash_hex = runes " ab";
  counterparty_pkh_hex = [];
  zenon_self_address = [];
  zenon_peer_address = [];
  zenon_token = runes "zts1znnxxxxxxxxxxxxx9z4ulx";
  zenon_amount = runes "010.00";
  offer = [];
}

passes : check_create offer (runes "Mainnet") join ≡ []
unfolding check_create equal_fold fold trim_space trim_left trim_right leg_eq role_eq same_hex
    token_or_znn text_eq normal_decimal
passes = refl

check_create-IsJoin_example : IsJoin offer (runes "Mainnet") join
check_create-IsJoin_example = check_create-IsJoin offer (runes "Mainnet") join passes
