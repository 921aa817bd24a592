-- ===== src/Wallet/Funding.antt =====
-- wasm/walletblock.go: requireCounterLegFunding and checkFundingOnChain. Without a backend, `b` is none.
use ferry_web.Prelude.{
  Bool, true, false, ◌&&◌, Option, none, some, List, [], ◌∷◌, ◌==◌, if◌then◌else◌,
}
use ferry_web.Prelude.Int.{ℤ, pos, ltb_ℤ, leb_ℤ}
use ferry_web.Prelude.Int64.{add64, sub64}
use ferry_web.Prelude.Text.{text_eq}
use ferry_web.Swap.Record.{Swap, FundingOutput}
use ferry_web.Swap.Commit.{
  Blocker, zenon_create_waits_on_btc, funding_commit_blocker, commit_confirmations,
}
use ferry_web.Swap.Build.{
  Call, done, fails, ◌>>=◌, ◌>>◌, check, or_fails, chain_failed, no_funding, no_backend,
  funding_gone, short_funding, in_mempool, too_shallow, waits_on_funding,
}
use ferry_web.Watch.Backend.{Utxo, Backend}

-- The first output of the listing that is the funding.
unfoldable pub find_output : FundingOutput → List Utxo → Option Utxo
unfolding text_eq
find_output f [] = none
find_output f (u ∷ us) =
    let rest = find_output f us in
    if text_eq u.tx_id f.tx_id && u.vout == f.vout then some u else rest

-- A swap without a funding does not get here: in the code that is a nil pointer.
unfoldable pub check_funding_on_chain : Option Backend → Swap → ℤ → Call (Unit {0})
unfolding find_output add64 sub64
check_funding_on_chain b s min_depth = do
  node ← or_fails b no_backend
  utxos ← or_fails (node.address_utxos s.contract_addr) chain_failed
  f ← or_fails s.funding no_funding
  found ← or_fails (find_output f utxos) funding_gone
  check (leb_ℤ s.amount_sats found.value) short_funding
  check (found.status.confirmed && ltb_ℤ (pos 0) found.status.block_height) in_mempool
  tip ← or_fails node.tip_height chain_failed
  check (leb_ℤ min_depth (add64 (sub64 tip found.status.block_height) (pos 1))) too_shallow

-- Nothing to ask for unless the create waits; then no blocker on the record, and the chain.
abbrev pub waits_for : Bool → Option Blocker → Call (Unit {0}) → Call (Unit {0})
waits_for false blocker on_chain = done tt
waits_for true (some b) on_chain = fails waits_on_funding
waits_for true none on_chain = on_chain

-- The time is in seconds.
unfoldable pub require_counter_leg_funding : Option Backend → ℤ → Swap → Call (Unit {0})
unfolding zenon_create_waits_on_btc funding_commit_blocker check_funding_on_chain
require_counter_leg_funding b now s =
    waits_for (zenon_create_waits_on_btc s) (funding_commit_blocker now s)
      (check_funding_on_chain b s (pos commit_confirmations))
