-- ===== src/Tests/Swaps.antt =====
-- The theorems on a swap at the two records of one swap.
use ferry_web.Prelude.Bytes.{Bytes}
use ferry_web.Prelude.Hex.{hex_encode, hex_decode}
use ferry_web.Prelude.Duration.{times, unix, sub_time}
use ferry_web.Contract.Num
use ferry_web.Contract.Parse.{
  ContractDetails, parse_contract, read_tokens, fits_template, read_terms,
}
use ferry_web.Contract.Num.{script_num, valid_lock_time}
use ferry_web.Contract.Build.{build_contract}
use ferry_web.Swap.Record.{
  Swap, SwapKey, ZenonLeg, FundingOutput, initiator, participant, send, receive, draft,
  awaiting_funding, funded, Network, network_params, log, contract_built, is_initiator,
}
use ferry_web.Swap.Roles.{
  IsCounterparty, legs_agree, secret_comes_out_once, zenon_leg_is_initiators,
  bitcoin_leg_is_initiators, zenon_htlc_is_ours, redeem_reveals_secret, secret_arrives_on_zenon,
}
use ferry_web.Swap.Terms.{missing_zenon_terms, withdraw_stale_verdict}
use ferry_web.Swap.Wellformed.{HasTerms, withdraw_stale_verdict-HasTerms}
use ferry_web.Swap.Commit.{
  IsCommitted, funding_committed, funding_committed_iff, zenon_create_waits_on_btc,
  contract_committed,
}
use ferry_web.Swap.Build.{done, build_swap_contract}
use ferry_web.Swap.Keys.{PaysRightParty, build_swap_contract-parse}
use ferry_web.Manager.Legs.{whole_hours, plan_zenon_leg, audit_leg_ordering}
use ferry_web.Manager.Hours.{whole_hours_keep_gap}
use ferry_web.Manager.Window.{plan_zenon_leg_window}
use ferry_web.Manager.Audit.{with_contract, adopt_contract, audit_contract}
use ferry_web.Manager.Accept.{Accepted, audit_contract-done}
use ferry_web.Tests.Bitcoin.{btcd, btcd-IsTxscript}
use ferry_web.Tests.Contracts.{pkh_a, pkh_b, hash, lock, contract, details}
use ferry_web.Prelude.{
  ◌<◌, ◌≡◌, refl, ◌↔◌, ◌⊎◌, inl, true, false, not, ◌&&◌, ◌||◌, Option, none, some, [], ◌∷◌, arith,
  if◌then◌else◌,
}
use ferry_web.Prelude.Int.{ℤ, pos, pos_part, neg_part, ◌+ℤ◌, ◌-ℤ◌, ◌≤ℤ◌, ◌<ℤ◌}
use ferry_web.Prelude.Int64.{Fits}
use ferry_web.Prelude.Text.{Text, text_eq, runes, trim_space, trim_left, trim_right}

abbrev no_leg : ZenonLeg
no_leg = record {
  htlc_id = [];
  self_address = [];
  peer_address = [];
  token_standard = [];
  observed_token = [];
  observed_hash_locked = [];
  amount = [];
  amount_display = [];
  expiration_hours = pos 0;
  expiration_seconds = pos 0;
  expiration_time = pos 0;
  hash_type = pos 1;
  key_max_size = pos 32;
  verified = true;
  verify_error = [];
  verify_pending = false;
  unlock_hash = [];
  unlock_seen = false;
}

abbrev key_of : Bytes → SwapKey
key_of h = record { priv = []; pub_key = []; pkh = h }

abbrev pub alice : Swap
alice = record {
  id = runes "a1";
  created_at = pos 0;
  updated_at = pos 0;
  version = pos 0;
  network = [];
  role = initiator;
  leg = send;
  state = draft;
  secret = [];
  secret_hash = hash;
  key = some (key_of pkh_a);
  counterparty_pkh = pkh_b;
  lock_time = lock;
  contract = [];
  contract_addr = [];
  amount_sats = pos 1000;
  dest_addr = [];
  funding = none;
  refund_tx = none;
  redeem_tx = none;
  funding_broadcast = none;
  zenon = no_leg;
  archived = false;
  events = [];
}

abbrev bob : Swap
bob = record alice {
  role = participant;
  leg = receive;
  key = some (key_of pkh_b);
  counterparty_pkh = [];
}

-- A stand-in for the package's addresses.
abbrev address : Bytes → Network → Option Text
address c n = some (runes "2N")

abbrev now : ℤ
now = pos 1799900000000000000

sides : IsCounterparty alice bob
sides = record { legs = refl; roles = inl (refl, refl) }

legs_agree_example :
    (zenon_leg_is_initiators alice ≡ zenon_leg_is_initiators bob)
    × (bitcoin_leg_is_initiators alice ≡ bitcoin_leg_is_initiators bob)
    × (bitcoin_leg_is_initiators alice ≡ not (zenon_leg_is_initiators alice))
    × (zenon_htlc_is_ours bob ≡ not (zenon_htlc_is_ours alice))
    × (zenon_leg_is_initiators alice
        ≡ (if zenon_htlc_is_ours alice then is_initiator alice.role else is_initiator bob.role))
legs_agree_example = legs_agree alice bob (inl refl) sides

secret_comes_out_once_example :
    ((redeem_reveals_secret alice || redeem_reveals_secret bob) ≡ zenon_leg_is_initiators alice)
    × ((secret_arrives_on_zenon alice || secret_arrives_on_zenon bob)
        ≡ bitcoin_leg_is_initiators alice)
    × ((redeem_reveals_secret alice && redeem_reveals_secret bob) ≡ false)
    × ((secret_arrives_on_zenon alice && secret_arrives_on_zenon bob) ≡ false)
secret_comes_out_once_example = secret_comes_out_once alice bob (inl refl) sides

abbrev alice_built : Swap
alice_built = record alice {
  contract = contract;
  contract_addr = runes "2N";
  state = awaiting_funding;
  updated_at = pos 5;
  events = record { at = pos 5; message = contract_built (runes "2N") lock } ∷ [];
}

alice_builds : build_swap_contract btcd address (pos 5) alice ≡ done alice_built
unfolding build_swap_contract build_contract valid_lock_time network_params log btcd text_eq
alice_builds = refl

build_swap_contract-parse_example :
    (key : SwapKey) × (d : ContractDetails) × (alice.key ≡ some key)
    × (parse_contract btcd contract ≡ Num.ok d)
    × (d.secret_hash ≡ hash)
    × (d.lock_time ≡ lock)
    × PaysRightParty alice key d
build_swap_contract-parse_example =
    build_swap_contract-parse btcd btcd-IsTxscript address (pos 5) alice alice_builds

abbrev bob_audited : Swap
bob_audited = with_contract now bob contract (runes "2N") details

bob_audits : audit_contract btcd address now bob (hex_encode contract) ≡ done bob_audited
unfolding audit_contract adopt_contract audit_leg_ordering hex_encode hex_decode trim_space
    trim_left trim_right network_params text_eq contract_committed parse_contract read_tokens
    fits_template read_terms script_num valid_lock_time build_contract btcd sub_time times
    bitcoin_leg_is_initiators zenon_leg_is_initiators ◌-ℤ◌
bob_audits = refl

audit_contract-done_example :
    (c : Bytes) × (hex_decode (trim_space (hex_encode contract)) ≡ some c)
    × (((bob_audited ≡ bob) × (bob.contract ≡ c))
        ⊎ (((bob.contract ≡ []) ⊎ (contract_committed bob ≡ none))
            × Accepted btcd now bob bob_audited c))
audit_contract-done_example =
    audit_contract-done btcd address now bob (hex_encode contract) bob_audits

abbrev bob_funded : Swap
bob_funded = record bob {
  state = funded;
  contract = contract;
  funding = some (record {
    tx_id = [];
    vout = 0;
    value = pos 1000;
    confirmed = true;
    block_height = pos 7;
    confirmations = pos 1;
    pk_script_hex = [];
  });
}

time-Fits : Fits (lock -ℤ pos 1799900000)
unfolding ◌-ℤ◌
time-Fits = omega arith

funding_committed_iff_example : (funding_committed (pos 1799900000) bob_funded ≡ true) ↔ (
    (zenon_create_waits_on_btc bob_funded ≡ false)
    ⊎ ((f : FundingOutput) × IsCommitted (pos 1799900000) bob_funded f))
funding_committed_iff_example = funding_committed_iff (pos 1799900000) bob_funded time-Fits

whole_hours_keep_gap_example :
    ((pos 100000 +ℤ pos 7200) ≤ℤ times 3600 (whole_hours (pos 13600) (pos 100000) true))
    × ((whole_hours (pos 13600) (pos 100000) false ≡ pos 0)
        ⊎ ((pos 1 ≤ℤ whole_hours (pos 13600) (pos 100000) false)
            × (times 3600 (whole_hours (pos 13600) (pos 100000) false)
                ≤ℤ (pos 100000 -ℤ pos 7200))))
whole_hours_keep_gap_example = whole_hours_keep_gap (pos 13600) (pos 100000) (omega arith)

near :
    (pos_part (unix lock -ℤ now) < 4611686018427387904)
    × (neg_part (unix lock -ℤ now) < 4611686018427387904)
unfolding times ◌-ℤ◌
near = omega arith

plan_zenon_leg_window_example :
    (plan_zenon_leg bob now ≡ bob)
    ⊎ ((pos 7200 ≤ℤ (plan_zenon_leg bob now).zenon.expiration_seconds)
        × ((target : ℤ) × (target
              ≡ unix (if zenon_leg_is_initiators bob then lock +ℤ pos 86400 else lock -ℤ pos 86400))
            × ((now +ℤ unix (plan_zenon_leg bob now).zenon.expiration_seconds) ≤ℤ target)
            × (target
                <ℤ (now +ℤ unix ((plan_zenon_leg bob now).zenon.expiration_seconds +ℤ pos 1)))))
plan_zenon_leg_window_example = plan_zenon_leg_window bob now near

-- The terms of a leg are there, so that its verdict stands.
abbrev pub complete : Swap
complete = record alice {
  zenon = record no_leg { self_address = runes "z1a"; amount_display = runes "10" };
}

stands : (withdraw_stale_verdict now complete).zenon.verified ≡ true
unfolding withdraw_stale_verdict missing_zenon_terms trim_space trim_left trim_right
stands = refl

withdraw_stale_verdict-HasTerms_example :
    (withdraw_stale_verdict now complete ≡ complete) × HasTerms complete
withdraw_stale_verdict-HasTerms_example = withdraw_stale_verdict-HasTerms now complete stands
