-- ===== src/Wallet/Plan.antt =====
-- wasm/walletblock.go: planCreate, planUnlock and planReclaim, and newWalletBlock as handleWalletBlock
-- calls it. base64.StdEncoding and big.Int.String are parameters.
use ferry_web.Prelude.{
  Bool, true, false, not, ◌&&◌, ◌||◌, Option, [], ◌∷◌, ◌++◌, if◌then◌else◌, is_empty, is_some,
}
use ferry_web.Prelude.Int.{ℤ, pos, ltb_ℤ, leb_ℤ}
use ferry_web.Prelude.Int64.{add64}
use ferry_web.Prelude.Text.{Text, trim_space}
use ferry_web.Prelude.Bytes.{Bytes}
use ferry_web.Prelude.Hex.{hex_decode}
use ferry_web.Prelude.Result.{Result, ok, err}
use ferry_web.Abi.Calls.{pack_create, pack_unlock, pack_reclaim}
use ferry_web.Swap.Record.{Swap, is_receive, State, redeemed}
use ferry_web.Swap.Roles.{zenon_htlc_is_ours}
use ferry_web.Swap.Terms.{missing_zenon_terms, agreed_token}
use ferry_web.Swap.Commit.{funding_bound}
use ferry_web.Swap.Build.{
  SwapError, Call, done, fails, ◌>>=◌, ◌>>◌, check, or_fails, zenon_not_ours, zenon_is_ours,
  already_created, not_audited, not_bound, no_peer, bad_zenon_address, no_expiry, leg_too_late,
  leg_too_early, unreadable_token, no_zenon_amount, imprecise_amount, amount_not_positive,
  call_refused, secret_unknown, no_htlc_id, terms_missing, not_verified, entry_gone, entry_refused,
  not_expired, bad_hex,
}
use ferry_web.Bitcoin.Tx.{Btcd, contract_pk_script}
use ferry_web.Watch.Backend.{Backend}
use ferry_web.Zenon.Address.{Bech32, parse_address}
use ferry_web.Zenon.Amount.{decimal_to_base_units}
use ferry_web.Zenon.Rpc.{ZenonRpc, Momentum, get_token, get_htlc_by_id, proxy_unlock_allowed}
use ferry_web.Zenon.Verify.{Verdict, verify}
use ferry_web.Manager.Expect.{zenon_verify_params}
use ferry_web.Manager.Entries.{zenon_expectations, is_verified}
use ferry_web.Wallet.Block.{Warning, proxy_unlock_denied, arrives_unreceived, preimage_unused, Plan}
use ferry_web.Wallet.Funding.{require_counter_leg_funding}

-- The packages that the code calls, and the wording of a refusal.
pub record Encodings : Type 0 where
  pub sha3 : Bytes → Bytes
  pub sha256 : Bytes → Bytes
  pub base64_decode : Text → Option Bytes
  pub base64_encode : Bytes → Text
  pub decimal : ℤ → Text
  pub bech32 : Bech32
  pub btcd : Btcd
  pub wording : Verdict → Text

abbrev pub of_result : {E A : Type 0} → Result E A → SwapError → Call A
of_result (ok a) e = done a
of_result (err _) e = fails e

abbrev is_redeemed : State → Bool
is_redeemed redeemed = true
is_redeemed _ = false

abbrev pub warn_if : Bool → Warning → Plan → Plan
warn_if c w plan = if c then record plan { warnings = plan.warnings ++ w ∷ [] } else plan

-- The answer is there, and is no.
abbrev pub is_denied : {E : Type 0} → Result E Bool → Bool
is_denied (ok allowed) = not allowed
is_denied (err _) = false

-- The call that locks the amount, filled in.
abbrev pub locked_plan : Encodings → Swap → ℤ → ℤ → Text → Bytes → Plan → Plan
unfolding agreed_token trim_space
locked_plan e s expiration amount symbol call plan = record plan {
  block = record plan.block {
    amount = e.decimal amount;
    token_standard = agreed_token s.zenon;
    data_text = e.base64_encode call;
  };
  hash_locked = trim_space s.zenon.peer_address;
  expiration_time = expiration;
  amount_display = s.zenon.amount_display;
  token_symbol = symbol;
}

module _ (e : Encodings) (z : ZenonRpc) where
  -- The bounds of the order of the legs, on an expiry.
  unfoldable pub check_order : Swap → ℤ → Call (Unit {0})
  unfolding zenon_verify_params
  check_order s expiration = do
    let want = zenon_verify_params s
    check (leb_ℤ want.max_expiration (pos 0) || leb_ℤ expiration want.max_expiration) leg_too_late
    check (leb_ℤ want.min_expiration (pos 0) || leb_ℤ want.min_expiration expiration) leg_too_early

  -- The agreed amount in base units, and the symbol of its token.
  unfoldable pub amount_to_lock : Swap → Call (ℤ × Text)
  unfolding get_token agreed_token decimal_to_base_units trim_space
  amount_to_lock s = do
    tok ← of_result (get_token z (agreed_token s.zenon)) unreadable_token
    check (not (is_empty (trim_space s.zenon.amount_display))) no_zenon_amount
    amount ← or_fails (decimal_to_base_units s.zenon.amount_display tok.decimals) imprecise_amount
    check (ltb_ℤ (pos 0) amount) amount_not_positive
    done (amount, tok.symbol)

  unfoldable pub plan_create : Option Backend → ℤ → Swap → Momentum → Plan → Call Plan
  unfolding funding_bound require_counter_leg_funding trim_space parse_address check_order
      amount_to_lock pack_create proxy_unlock_allowed agreed_token add64
  plan_create b now s mom plan = do
    check (zenon_htlc_is_ours s) zenon_not_ours
    check (is_empty s.zenon.htlc_id) already_created
    check (not (is_empty s.contract)) not_audited
    check (not (is_some s.funding) || funding_bound (contract_pk_script e.btcd) s) not_bound
    require_counter_leg_funding b now s
    check (not (is_empty (trim_space s.zenon.peer_address))) no_peer
    hash_locked ←
        of_result (parse_address e.bech32 (trim_space s.zenon.peer_address)) bad_zenon_address
    check (ltb_ℤ (pos 0) s.zenon.expiration_seconds) no_expiry
    let expiration = add64 mom.timestamp s.zenon.expiration_seconds
    check_order s expiration
    (amount, symbol) ← amount_to_lock s
    call ← of_result (pack_create e.sha3 hash_locked expiration 1 32 s.secret_hash) call_refused
    done (
        warn_if (is_denied (proxy_unlock_allowed z (trim_space s.zenon.peer_address)))
          proxy_unlock_denied (locked_plan e s expiration amount symbol call plan))

  unfoldable pub plan_unlock : ℤ → Swap → Plan → Call Plan
  unfolding trim_space missing_zenon_terms get_htlc_by_id zenon_expectations verify hex_decode
      pack_unlock
  plan_unlock now s plan = do
    check (not (zenon_htlc_is_ours s)) zenon_is_ours
    check (not (is_empty s.secret)) secret_unknown
    let entry = trim_space s.zenon.htlc_id
    check (not (is_empty entry)) no_htlc_id
    check (is_empty (missing_zenon_terms s)) terms_missing
    check s.zenon.verified not_verified
    info ← of_result (get_htlc_by_id z entry) entry_gone
    check
        (is_verified (
          verify e.base64_decode info
            (record (zenon_expectations e.base64_decode e.sha256 e.wording z now s).0 {
              expect_id = entry;
            })))
        entry_refused
    id ← or_fails (hex_decode entry) bad_hex
    call ← of_result (pack_unlock e.sha3 id s.secret) call_refused
    done (
        warn_if true arrives_unreceived (record plan {
          block = record plan.block { data_text = e.base64_encode call };
          htlc_id = entry;
        }))

  unfoldable pub plan_reclaim : Swap → Momentum → Plan → Call Plan
  unfolding trim_space hex_decode pack_reclaim
  plan_reclaim s mom plan = do
    check (zenon_htlc_is_ours s) zenon_not_ours
    let entry = trim_space s.zenon.htlc_id
    check (not (is_empty entry)) no_htlc_id
    check (leb_ℤ s.zenon.expiration_time (pos 0) || leb_ℤ s.zenon.expiration_time mom.timestamp)
        not_expired
    id ← or_fails (hex_decode entry) bad_hex
    call ← of_result (pack_reclaim e.sha3 id) call_refused
    done (
        warn_if (not (is_empty s.secret) && is_receive s.leg && not (is_redeemed s.state))
          preimage_unused
          (record plan {
            block = record plan.block { data_text = e.base64_encode call };
            htlc_id = entry;
          }))
