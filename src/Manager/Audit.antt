-- ===== src/Manager/Audit.antt =====
-- wasm/manager.go: SetCounterpartyPKH and AuditContract, from the record that the store loads to the one
-- that it is given to save.
use ferry_web.Prelude.Bytes.{Bytes}
use ferry_web.Prelude.Hex.{hex_decode}
use ferry_web.Prelude.Duration.{unix, sub_time}
use ferry_web.Contract.Script.{Txscript}
use ferry_web.Contract.Parse.{ContractDetails, parse_contract}
use ferry_web.Swap.Record.{
  Swap, SwapKey, Network, network_params, other_message, log, is_send, is_receive,
}
use ferry_web.Swap.Commit.{contract_committed}
use ferry_web.Swap.Build.{
  Call, done, fails, ◌>>=◌, ◌>>◌, check, or_fails, of_contract, past_draft, build_swap_contract,
  wrong_side, bad_pkh, bad_hex, key_missing, unknown_network, committed_elsewhere, not_our_key,
  wrong_hash, no_address,
}
use ferry_web.Swap.Roles.{zenon_htlc_is_ours}
use ferry_web.Manager.Legs.{plan_zenon_leg, audit_leg_ordering}
use ferry_web.Prelude.{not, ◌&&◌, ◌||◌, Option, ◌==◌, if◌then◌else◌, length, is_empty, is_some}
use ferry_web.Prelude.Int.{ℤ, pos, ltb_ℤ}
use ferry_web.Prelude.Text.{Text, runes, text_eq, trim_space}

-- The record with the contract in it, planned and logged.
unfoldable pub with_contract : ℤ → Swap → Bytes → Text → ContractDetails → Swap
unfolding plan_zenon_leg log
with_contract now s contract addr details =
    let planned =
      plan_zenon_leg
        (record s {
          contract = contract;
          contract_addr = addr;
          lock_time = details.lock_time;
          counterparty_pkh = details.pkh_refund;
          state = past_draft s.state;
        })
        now in
    let audited = log now (other_message (runes "audited counterparty contract")) planned in
    let z = audited.zenon in
    if zenon_htlc_is_ours audited && ltb_ℤ (pos 0) z.expiration_seconds && is_empty z.htlc_id
    then log now (other_message (runes "create your Zenon HTLC")) audited
    else audited

module _ (t : Txscript) (address : Bytes → Network → Option Text) where
  unfoldable pub set_counterparty_pkh : ℤ → Swap → Text → Call Swap
  unfolding hex_decode trim_space text_eq contract_committed build_swap_contract
  set_counterparty_pkh now s pkh_hex = do
    check (is_send s.leg) wrong_side
    pkh ← or_fails (hex_decode (trim_space pkh_hex)) bad_pkh
    check (length pkh == 20) bad_pkh
    if text_eq pkh s.counterparty_pkh && not (is_empty s.contract)
        then done s
        else if is_some (contract_committed s)
        then fails committed_elsewhere
        else build_swap_contract t address now (record s { counterparty_pkh = pkh })

  -- What follows once the contract is read and is a new one. The instant `now` is in nanoseconds.
  unfoldable pub adopt_contract : ℤ → Swap → SwapKey → Network → Bytes → ContractDetails → Call Swap
  unfolding text_eq audit_leg_ordering with_contract sub_time
  adopt_contract now s key params contract details = do
    check (text_eq details.pkh_redeem key.pkh) not_our_key
    check (is_empty s.secret_hash || text_eq details.secret_hash s.secret_hash) wrong_hash
    ordered ←
        audit_leg_ordering now
          (record s {
            secret_hash = if is_empty s.secret_hash then details.secret_hash else s.secret_hash;
          })
          details.lock_time (sub_time (unix details.lock_time) now)
    addr ← or_fails (address contract params) no_address
    done (with_contract now ordered contract addr details)

  unfoldable pub audit_contract : ℤ → Swap → Text → Call Swap
  unfolding hex_decode trim_space parse_contract network_params text_eq contract_committed
      adopt_contract
  audit_contract now s contract_hex = do
    check (is_receive s.leg) wrong_side
    contract ← or_fails (hex_decode (trim_space contract_hex)) bad_hex
    key ← or_fails s.key key_missing
    details ← of_contract (parse_contract t contract)
    params ← or_fails (network_params s.network) unknown_network
    if not (is_empty s.contract) && text_eq contract s.contract
        then done s
        else if not (is_empty s.contract) && is_some (contract_committed s)
        then fails committed_elsewhere
        else adopt_contract now s key params contract details
