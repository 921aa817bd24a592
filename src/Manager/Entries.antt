-- ===== src/Manager/Entries.antt =====
-- wasm/manager.go: zenonExpectations, VerifyZenon and FindZenonHtlc. The wording of a refusal is the
-- parameter `wording`.
use ferry_web.Prelude.{
  Bool, true, false, not, ◌&&◌, ◌||◌, Option, none, some, List, [], ◌∷◌, if◌then◌else◌, is_empty,
}
use ferry_web.Prelude.Int.{ℤ}
use ferry_web.Prelude.Text.{Text, runes, text_eq, trim_space}
use ferry_web.Prelude.Bytes.{Bytes}
use ferry_web.Prelude.Result.{Result, ok, err}
use ferry_web.Swap.Record.{Swap, log, clock_unknown, entry_verified, entry_failed, entry_unlocked}
use ferry_web.Swap.Roles.{zenon_htlc_is_ours, secret_arrives_on_zenon}
use ferry_web.Swap.Terms.{zero_amount, agreed_token}
use ferry_web.Swap.Build.{
  Call, done, fails, ◌>>=◌, ◌>>◌, check, or_fails, no_zenon_node, no_htlc_id, entry_gone,
  no_creator_address, no_candidate, none_matches, chain_unreadable, not_loaded, not_saved,
}
use ferry_web.Store.Records.{Backing, Json, load, save}
use ferry_web.Ledger.Preimage.{SearchError, find_preimage}
use ferry_web.Ledger.Creates.{HtlcCandidate, find_htlc_creates}
use ferry_web.Zenon.Entry.{HtlcInfo}
use ferry_web.Zenon.Verify
use ferry_web.Zenon.Verify.{VerifyParams, Verdict, Problem, verify, check_incomplete}
use ferry_web.Zenon.Amount.{decimal_to_base_units}
use ferry_web.Zenon.Rpc.{
  ZenonRpc, get_token, get_htlc_by_id, frontier_momentum, account_blocks_by_page,
  get_account_block_by_hash, what_happened_to, existed,
}
use ferry_web.Manager.Expect.{zenon_verify_params}
use ferry_web.Watch.Poll.{of_store, preimage_search_pages, preimage_search_page_size}

-- The minimum in base units, or why there is none.
pub data Minimum : Type 0 where
  not_given : Minimum
  uncheckable : Text → Minimum
  at_least : ℤ → Minimum

abbrev pub with_minimum : VerifyParams → Minimum → VerifyParams
with_minimum want not_given = want
with_minimum want (uncheckable why) = record want { amount_uncheckable = why }
with_minimum want (at_least n) = record want { min_amount = some n }

pub data Verification : Type 0 where
  -- The record, the entry, and the verdict on it.
  checked : Swap → HtlcInfo → Verdict → Verification
  -- The entry is gone, and the preimage was found; this is returned with an error.
  recovered : Swap → Verification

abbrev pub is_verified : Verdict → Bool
is_verified Verify.verified = true
is_verified (Verify.refused _ _) = false

-- What the refusals of an amount say, without the values in them.
abbrev pub no_token : Text
no_token = runes "could not read the agreed token from the node"

abbrev pub no_number : Text
no_number = runes "the agreed amount could not be interpreted"

module _ (base64 : Text → Option Bytes) (sha256 : Bytes → Bytes) (wording : Verdict → Text) where
  unfoldable pub minimum_of : ZenonRpc → Swap → Minimum
  unfolding zero_amount trim_space agreed_token get_token decimal_to_base_units
  minimum_of z s =
      let amount = trim_space s.zenon.amount_display in
      if is_empty amount || zero_amount amount
      then not_given
      else elim (get_token z (agreed_token s.zenon)) [
        | err _ ↦ uncheckable no_token
        | ok tok ↦ elim (decimal_to_base_units s.zenon.amount_display tok.decimals) [
          | none ↦ uncheckable no_number
          | some n ↦ at_least n
        ]
      ]

  -- The expectations, and the record with a note where this machine's clock is used, in seconds.
  unfoldable pub zenon_expectations : ZenonRpc → ℤ → Swap → VerifyParams × Swap
  unfolding zenon_verify_params frontier_momentum minimum_of log
  zenon_expectations z now s =
      let want = zenon_verify_params s in
      elim (frontier_momentum z) [
        | ok mom ↦ (with_minimum (record want { now = mom.timestamp }) (minimum_of z s), s)
        | err _ ↦
            (with_minimum (record want { now = now }) (minimum_of z s), log now clock_unknown s)
      ]

  -- Whether the verdict is the one that the record has.
  unfoldable pub repeats : Text → Verdict → Swap → Bool
  unfolding text_eq
  repeats id v s =
      text_eq s.zenon.htlc_id id
      && (if s.zenon.verified then is_verified v else not (is_verified v))
      && (is_verified v || text_eq s.zenon.verify_error (wording v))

  -- What an entry says, and the verdict on it.
  unfoldable pub record_verdict : ℤ → Text → HtlcInfo → Verdict → Swap → Swap
  unfolding repeats check_incomplete log
  record_verdict now id info v s =
      let s' : Swap = record s {
        zenon = record s.zenon {
          htlc_id = id;
          observed_token = info.token_standard;
          observed_hash_locked = info.hash_locked;
          expiration_time = info.expiration_time;
          hash_type = info.hash_type;
          key_max_size = info.key_max_size;
          amount = info.amount;
          verify_pending = not (is_verified v) && check_incomplete v;
          verified = is_verified v;
          verify_error = if is_verified v then [] else wording v;
        };
      } in
      if repeats id v s
      then s'
      else if is_verified v
      then log now (entry_verified id) s'
      else log now (entry_failed id) s'

  -- The unlock of an entry that is gone.
  unfoldable pub find_unlock : ZenonRpc → Text → Swap → Result SearchError Bytes
  unfolding find_preimage account_blocks_by_page get_account_block_by_hash
  find_unlock z payee s =
      find_preimage sha256 base64 (account_blocks_by_page z) (get_account_block_by_hash z) payee
        s.secret_hash preimage_search_page_size preimage_search_pages

  -- Whether the search is worth it.
  unfoldable pub wants_unlock : ZenonRpc → Text → Swap → Bool
  unfolding what_happened_to existed secret_arrives_on_zenon
  wants_unlock z id s =
      existed (what_happened_to z id)
      && is_empty s.secret
      && secret_arrives_on_zenon s
      && not (is_empty s.zenon.peer_address)

  unfoldable pub unlocked : ℤ → Text → Bytes → Swap → Swap
  unfolding log
  unlocked now id secret s =
      log now (entry_unlocked id secret)
        (record s { secret = secret; zenon = record s.zenon { htlc_id = id; unlock_seen = true } })

  module _ (j : Json) (full : Backing → Text → Text → Bool) (prefix : Text) where
    -- An entry that the contract does not have.
    unfoldable pub entry_missing :
        ZenonRpc → ℤ → Backing → Text → Swap → Call (Backing × Verification)
    unfolding save wants_unlock find_unlock unlocked
    entry_missing z now store id s =
        if wants_unlock z id s
        then elim (find_unlock z s.zenon.peer_address s) [
          | err _ ↦ fails entry_gone
          | ok secret ↦
              of_store (save j full prefix store (unlocked now id secret s)) not_saved >>= λ r.
              done (r.0, recovered r.1)
        ]
        else fails entry_gone

    unfoldable pub entry_read :
        ZenonRpc → ℤ → Backing → Text → HtlcInfo → Swap → Call (Backing × Verification)
    unfolding save zenon_expectations verify record_verdict
    entry_read z now store id info s =
        let (want, s') = zenon_expectations z now s in
        let v = verify base64 info (record want { expect_id = id }) in
        of_store (save j full prefix store (record_verdict now id info v s')) not_saved >>= λ r.
        done (r.0, checked r.1 info v)

    unfoldable pub verify_zenon :
        Option ZenonRpc → ℤ → Backing → Text → Text → Call (Backing × Verification)
    unfolding load trim_space get_htlc_by_id entry_missing entry_read
    verify_zenon znn now store id htlc_id = do
      s ← of_store (load j full prefix now store id) not_loaded
      z ← or_fails znn no_zenon_node
      let entry = trim_space htlc_id
      check (not (is_empty entry)) no_htlc_id
      elim (get_htlc_by_id z entry) [
        | err _ ↦ entry_missing z now store entry s
        | ok info ↦ entry_read z now store entry info s
      ]

    -- The first candidate that passes is verified; `none_matches` where there is none.
    unfoldable pub try_candidates :
        ZenonRpc
        → ℤ
        → Backing
        → Text
        → VerifyParams
        → List HtlcCandidate
        → Call (Backing × Verification)
    unfolding get_htlc_by_id verify verify_zenon
    try_candidates z now store id want [] = fails none_matches
    try_candidates z now store id want (c ∷ cs) =
        let rest = try_candidates z now store id want cs in
        elim (get_htlc_by_id z c.id) [
          | err _ ↦ rest
          | ok info ↦
              if is_verified (verify base64 info (record want { expect_id = c.id }))
              then verify_zenon (some z) now store id c.id
              else rest
        ]

    -- The address that creates the entry.
    unfoldable pub creator_of : Swap → Text
    creator_of s = if zenon_htlc_is_ours s then s.zenon.self_address else s.zenon.peer_address

    unfoldable pub find_zenon_htlc :
        Option ZenonRpc → ℤ → Backing → Text → Call (Backing × Verification)
    unfolding load creator_of find_htlc_creates account_blocks_by_page zenon_expectations
        try_candidates trim_space
    find_zenon_htlc znn now store id = do
      s ← of_store (load j full prefix now store id) not_loaded
      z ← or_fails znn no_zenon_node
      check (not (is_empty (trim_space (creator_of s)))) no_creator_address
      elim (find_htlc_creates base64 (account_blocks_by_page z) (creator_of s) s.secret_hash 50
          10) [
            | err _ ↦ fails chain_unreadable
            | ok candidates ↦
                check (not (is_empty candidates)) no_candidate
                >> try_candidates z now store id (zenon_expectations z now s).0 candidates
          ]
