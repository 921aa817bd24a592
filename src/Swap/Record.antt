-- ===== src/Swap/Record.antt =====
-- wasm/swap.go, wasm/keys.go, wasm/txbuild.go: the fields of a swap. A string that is one of a few
-- values is an enumeration with a constructor for any other text, since records are read back unchecked.
use ferry_web.Prelude.Bytes.{Bytes}
use ferry_web.Prelude.{
  ℕ, Bool, true, false, ◌||◌, Option, none, some, List, [], ◌∷◌, ◌++◌, if◌then◌else◌, is_empty,
}
use ferry_web.Prelude.Int.{ℤ}
use ferry_web.Prelude.Text.{Text, runes, text_eq}

pub data Role : Type 0 where
  initiator participant : Role
  other_role : Text → Role

pub data Leg : Type 0 where
  send receive : Leg
  other_leg : Text → Leg

pub data State : Type 0 where
  draft awaiting_funding funded redeemed refunded expired : State
  other_state : Text → State

abbrev pub is_initiator : Role → Bool
is_initiator initiator = true
is_initiator _ = false

abbrev pub is_participant : Role → Bool
is_participant participant = true
is_participant _ = false

abbrev pub is_send : Leg → Bool
is_send send = true
is_send _ = false

abbrev pub is_receive : Leg → Bool
is_receive receive = true
is_receive _ = false

-- Leg.Opposite.
abbrev pub opposite : Leg → Leg
opposite send = receive
opposite _ = send

pub record SwapKey : Type 0 where
  pub priv : Bytes
  pub pub_key : Bytes
  pub pkh : Bytes

pub record FundingOutput : Type 0 where
  pub tx_id : Text
  pub vout : ℕ
  pub value : ℤ
  pub confirmed : Bool
  pub block_height : ℤ
  pub confirmations : ℤ
  pub pk_script_hex : Text

pub record FundingBroadcast : Type 0 where
  pub tx_id : Text
  pub at : ℤ

pub record SpendResult : Type 0 where
  pub raw_hex : Text
  pub tx_id : Text
  pub fee : ℤ
  pub vsize : ℤ
  pub value : ℤ

pub record ZenonLeg : Type 0 where
  pub htlc_id : Text
  pub self_address : Text
  pub peer_address : Text
  pub token_standard : Text
  pub observed_token : Text
  pub observed_hash_locked : Text
  pub amount : Text
  pub amount_display : Text
  pub expiration_hours : ℤ
  pub expiration_seconds : ℤ
  pub expiration_time : ℤ
  pub hash_type : ℤ
  pub key_max_size : ℤ
  pub verified : Bool
  pub verify_error : Text
  pub verify_pending : Bool
  pub unlock_hash : Text
  pub unlock_seen : Bool

-- The lines that are written at most once.
pub data Note : Type 0 where
  no_binding no_destination no_preimage_yet funding_mismatch : Note

-- The lines that these files write to a swap's history, by what they say.
pub data Message : Type 0 where
  note : Note → Message
  saw_funding : Text → ℕ → ℤ → Bool → Message
  switched_funding : Text → ℕ → ℤ → Text → ℕ → ℤ → Message
  could_not_read_funding : Message
  several_outputs : ℕ → Message
  holds_too_little : ℤ → ℤ → Message
  could_not_sign_refund : Message
  signed_refund : Text → ℤ → ℤ → Message
  could_not_read_spend : Text → Message
  learned_secret : Text → Bytes → Message
  was_redeemed was_refunded : Text → Message
  recovered_preimage : Bytes → Message
  timelock_reached : Message
  sent_funding : Text → Message
  secret_supplied : Message
  filed_away : Bool → Message
  redeeming_late : ℤ → Message
  redeemed_to : Text → Text → ℤ → ℤ → Message
  refunded_in : Text → ℤ → ℤ → Message
  clock_unknown : Message
  term_set : Text → Message
  terms_changed : Text → Message
  entry_verified entry_failed : Text → Message
  entry_unlocked : Text → Bytes → Message
  secret_generated : Bytes → Message
  hash_given : Text → Message
  over_cli_cap : ℤ → Message
  swap_created : Message
  contract_built : Text → ℤ → Message
  verdict_withdrawn : Message
  ordering_unchecked : ℤ → Message
  other_message : Text → Message

pub record Event : Type 0 where
  pub at : ℤ
  pub message : Message

pub record Swap : Type 0 where
  pub id : Text
  pub created_at : ℤ
  pub updated_at : ℤ
  pub version : ℤ
  pub network : Text
  pub role : Role
  pub leg : Leg
  pub state : State
  pub secret : Bytes
  pub secret_hash : Bytes
  pub key : Option SwapKey
  pub counterparty_pkh : Bytes
  pub lock_time : ℤ
  pub contract : Bytes
  pub contract_addr : Text
  pub amount_sats : ℤ
  pub dest_addr : Text
  pub funding : Option FundingOutput
  pub refund_tx : Option SpendResult
  pub redeem_tx : Option SpendResult
  pub funding_broadcast : Option FundingBroadcast
  pub zenon : ZenonLeg
  pub archived : Bool
  pub events : List Event

-- Swap.log, at the time `now`.
unfoldable pub log : ℤ → Message → Swap → Swap
log now m s = record s {
  updated_at = now;
  events = s.events ++ (record { at = now; message = m } ∷ []);
}

pub data Network : Type 0 where
  mainnet testnet3 signet regtest : Network

-- NetworkParams.
unfoldable pub network_params : Text → Option Network
unfolding text_eq
network_params name =
    if text_eq name (runes "mainnet") || is_empty name
    then some mainnet
    else if text_eq name (runes "testnet") || text_eq name (runes "testnet3")
    then some testnet3
    else if text_eq name (runes "signet")
    then some signet
    else if text_eq name (runes "regtest")
    then some regtest
    else none
