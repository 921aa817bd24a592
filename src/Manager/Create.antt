-- ===== src/Manager/Create.antt =====
-- wasm/manager.go: Create. The instant `now` is in nanoseconds. What is drawn at random is the
-- parameter `drawn`.
use ferry_web.Prelude.{
  ◌*◌, Bool, false, not, ◌&&◌, ◌||◌, Option, none, some, [], ◌==◌, if◌then◌else◌, length, is_empty,
  is_some,
}
use ferry_web.Prelude.Int.{ℤ, pos, pos_part, ◌+ℤ◌, ltb_ℤ, leb_ℤ, quot}
use ferry_web.Prelude.Text.{Text, trim_space}
use ferry_web.Prelude.Bytes.{Bytes}
use ferry_web.Prelude.Duration.{second}
use ferry_web.Prelude.Hex.{hex_decode}
use ferry_web.Contract.Script.{Txscript}
use ferry_web.Contract.Num.{valid_lock_time}
use ferry_web.Swap.Record.{
  Swap, SwapKey, ZenonLeg, Network, network_params, draft, is_initiator, is_participant, is_send,
  is_receive, log, secret_generated, hash_given, over_cli_cap, swap_created,
}
use ferry_web.Swap.Terms.{zero_amount, token_or_znn}
use ferry_web.Swap.Offer.{CreateParams, check_create}
use ferry_web.Swap.Decode.{OfferText, decode_offer, is_ok}
use ferry_web.Swap.Build.{
  Call, done, ◌>>=◌, ◌>>◌, check, or_fails, of_contract, build_swap_contract, bad_role, bad_leg,
  bad_amount, unknown_network, offer_differs, no_dest_addr, bad_address, bad_zenon_address,
  bad_zenon_token, bad_zenon_amount, zero_zenon_amount, hash_missing, bad_hash, bad_hours,
  bad_pkh_hex, no_randomness, not_saved,
}
use ferry_web.Store.Records.{Backing, Json, save}
use ferry_web.Watch.Poll.{of_store}
use ferry_web.Bitcoin.Tx.{Btcd, address_script}
use ferry_web.Zenon.Address.{Bech32, parse_address, parse_token_standard}
use ferry_web.Zenon.Amount.{canonical_zenon_amount}
use ferry_web.Manager.Legs.{btc_leg_hours, plan_zenon_leg}

-- NewID, NewSwapKey and NewSecret, each with what it draws.
pub record Drawn : Type 0 where
  pub id : Option Text
  pub key : Option SwapKey
  pub secret : Option Bytes

-- The packages that the code calls.
pub record Libraries : Type 0 where
  pub sha256 : Bytes → Bytes
  pub txscript : Txscript
  pub btcd : Btcd
  pub bech32 : Bech32
  pub offers : OfferText
  pub address : Bytes → Network → Option Text

abbrev max_lock_hours : ℤ
max_lock_hours = pos 8760

abbrev cli_max_hours : ℤ
cli_max_hours = pos 24

abbrev blank_leg : ZenonLeg
blank_leg = record {
  htlc_id = [];
  self_address = [];
  peer_address = [];
  token_standard = [];
  observed_token = [];
  observed_hash_locked = [];
  amount = [];
  amount_display = [];
  expiration_hours = pos 0;
  expiration_seconds = pos 0;
  expiration_time = pos 0;
  hash_type = pos 1;
  key_max_size = pos 32;
  verified = false;
  verify_error = [];
  verify_pending = false;
  unlock_hash = [];
  unlock_seen = false;
}

-- The record of a swap that has nothing but what was asked for.
abbrev pub drafted : ℤ → Text → Text → SwapKey → CreateParams → Swap
drafted now net id key p = record {
  id = id;
  created_at = now;
  updated_at = now;
  version = pos 0;
  network = net;
  role = p.role;
  leg = p.leg;
  state = draft;
  secret = [];
  secret_hash = [];
  key = some key;
  counterparty_pkh = [];
  lock_time = pos 0;
  contract = [];
  contract_addr = [];
  amount_sats = p.amount_sats;
  dest_addr = trim_space p.dest_addr;
  funding = none;
  refund_tx = none;
  redeem_tx = none;
  funding_broadcast = none;
  zenon = record blank_leg {
    self_address = trim_space p.zenon_self_address;
    peer_address = trim_space p.zenon_peer_address;
    token_standard = token_or_znn (trim_space p.zenon_token);
    amount_display = trim_space p.zenon_amount;
  };
  archived = false;
  events = [];
}

-- A field is empty, or the test holds of it.
abbrev pub given_is : (Text → Bool) → Text → Bool
given_is test value = is_empty value || test value

abbrev asked_hours : CreateParams → Swap → ℤ
asked_hours p s = if leb_ℤ p.lock_hours (pos 0) then pos (btc_leg_hours s) else p.lock_hours

abbrev pub hours_allowed : CreateParams → Swap → Bool
hours_allowed p s = leb_ℤ (pos 1) (asked_hours p s) && leb_ℤ (asked_hours p s) max_lock_hours

-- The second that the hours end in, for an instant after 1970.
abbrev pub lock_of : ℤ → CreateParams → Swap → ℤ
lock_of now p s = quot (now +ℤ pos (pos_part (asked_hours p s) * 3600 * second)) second

abbrev pub over_cap : ℤ → Swap → Swap
over_cap now s =
    if ltb_ℤ cli_max_hours s.zenon.expiration_hours
    then log now (over_cli_cap s.zenon.expiration_hours) s
    else s

module _ (l : Libraries) where
  unfoldable pub agrees_with_offer : Text → CreateParams → Call (Unit {0})
  unfolding trim_space decode_offer check_create
  agrees_with_offer net p =
      if is_empty (trim_space p.offer)
      then done tt
      else (decode_offer l.offers l.bech32 (trim_space p.offer) >>= λ offer.
          check (is_empty (check_create offer net p)) offer_differs)

  -- The tests of the amount, the offer, and the addresses and the token.
  unfoldable pub check_params : Text → CreateParams → Call (Unit {0})
  unfolding network_params agrees_with_offer address_script parse_address parse_token_standard
      trim_space
  check_params net p = do
    check (is_initiator p.role || is_participant p.role) bad_role
    check (is_send p.leg || is_receive p.leg) bad_leg
    check (ltb_ℤ (pos 0) p.amount_sats) bad_amount
    params ← or_fails (network_params net) unknown_network
    agrees_with_offer net p
    check (not (is_empty (trim_space p.dest_addr))) no_dest_addr
    check (is_some (address_script l.btcd (trim_space p.dest_addr) params)) bad_address
    check (given_is (λ v. is_ok (parse_address l.bech32 v)) (trim_space p.zenon_self_address))
        bad_zenon_address
    check (given_is (λ v. is_ok (parse_address l.bech32 v)) (trim_space p.zenon_peer_address))
        bad_zenon_address
    check (given_is (λ v. is_ok (parse_token_standard l.bech32 v)) (trim_space p.zenon_token))
        bad_zenon_token

  unfoldable pub check_amount : Text → Call (Unit {0})
  unfolding canonical_zenon_amount zero_amount
  check_amount amount = do
    check (canonical_zenon_amount amount) bad_zenon_amount
    check (is_empty amount || not (zero_amount amount)) zero_zenon_amount

  -- An initiator draws a secret; a participant takes the initiator's hash.
  unfoldable pub with_secret : ℤ → Drawn → CreateParams → Swap → Call Swap
  unfolding hex_decode log
  with_secret now drawn p s =
      if is_initiator p.role
      then (or_fails drawn.secret no_randomness >>= λ secret. done (
          log now (secret_generated (l.sha256 secret))
            (record s { secret = secret; secret_hash = l.sha256 secret })))
      else (check (not (is_empty p.secret_hash_hex)) hash_missing
          >> (or_fails (hex_decode p.secret_hash_hex) bad_hash >>= λ hash.
              check (length hash == 32) bad_hash
              >> done (log now (hash_given p.secret_hash_hex) (record s { secret_hash = hash }))))

  -- The locktime, and the plan of the Zenon leg.
  unfoldable pub with_lock : ℤ → CreateParams → Swap → Call Swap
  unfolding btc_leg_hours valid_lock_time plan_zenon_leg quot log
  with_lock now p s =
      check (hours_allowed p s) bad_hours
      >> (of_contract (valid_lock_time (lock_of now p s))
          >> done (over_cap now (plan_zenon_leg (record s { lock_time = lock_of now p s }) now)))

  unfoldable pub with_pkh : CreateParams → Swap → Call Swap
  unfolding hex_decode
  with_pkh p s =
      if is_empty p.counterparty_pkh_hex
      then done s
      else (or_fails (hex_decode p.counterparty_pkh_hex) bad_pkh_hex >>= λ pkh.
          check (length pkh == 20) bad_pkh_hex >> done (record s { counterparty_pkh = pkh }))

  unfoldable pub with_built : ℤ → Swap → Call Swap
  unfolding build_swap_contract
  with_built now s =
      if is_send s.leg && length s.counterparty_pkh == 20
      then build_swap_contract l.txscript l.address now s
      else done s

  module _ (j : Json) (full : Backing → Text → Text → Bool) (prefix : Text) where
    unfoldable pub create : ℤ → Text → Drawn → Backing → CreateParams → Call (Backing × Swap)
    unfolding check_params check_amount with_secret with_lock with_pkh with_built save log
        trim_space token_or_znn
    create now net drawn store p = do
      check_params net p
      id ← or_fails drawn.id no_randomness
      key ← or_fails drawn.key no_randomness
      check_amount (trim_space p.zenon_amount)
      s ← with_secret now drawn p (drafted now net id key p)
      locked ← with_lock now p s
      known ← with_pkh p locked
      built ← with_built now known
      of_store (save j full prefix store (log now swap_created built)) not_saved
