-- ===== src/Wallet/There.antt =====
-- wasm/walletblock.go: what the gate in front of a create asks of the funding.
use ferry_web.Prelude.{
  ◌≡◌, refl, ◌⊎◌, inl, inr, Bool, true, false, ◌&&◌, Option, none, some, List, arith, is_some,
}
use ferry_web.Prelude.Int.{ℤ, pos, ◌≤ℤ◌, ltb_ℤ, leb_ℤ}
use ferry_web.Prelude.Int64.{add64, sub64}
use ferry_web.Swap.Record.{Swap, FundingOutput}
use ferry_web.Swap.Commit.{
  Blocker, zenon_create_waits_on_btc, funding_commit_blocker, commit_confirmations,
}
use ferry_web.Swap.Build.{
  SwapError, Call, done, check, check-then, or_fails-then, no_backend, chain_failed, no_funding,
  funding_gone, short_funding, in_mempool, too_shallow,
}
use ferry_web.Watch.Backend.{Utxo, Backend}
use ferry_web.Wallet.Funding.{
  find_output, waits_for, check_funding_on_chain, require_counter_leg_funding,
}

-- The funding is unspent at the contract's address, holds the amount, and is mined deep enough, as the
-- node says now.
pub record IsThere (b : Option Backend) (s : Swap) (depth : ℤ) : Type 0 where
  pub node : Backend
  pub asked : b ≡ some node
  pub listed : List Utxo
  pub answered : node.address_utxos s.contract_addr ≡ some listed
  pub funding : FundingOutput
  pub recorded : s.funding ≡ some funding
  pub output : Utxo
  pub unspent : find_output funding listed ≡ some output
  pub full : s.amount_sats ≤ℤ output.value
  pub mined : (output.status.confirmed && ltb_ℤ (pos 0) output.status.block_height) ≡ true
  pub tip : ℤ
  pub tip_is : node.tip_height ≡ some tip
  pub deep : leb_ℤ depth (add64 (sub64 tip output.status.block_height) (pos 1)) ≡ true

pub leb_ℤ-≤ℤ : (a b : ℤ) → leb_ℤ a b ≡ true → a ≤ℤ b
leb_ℤ-≤ℤ a b h = ground arith

pub check-done : (c : Bool) (e : SwapError) (u : Unit {0}) → check c e ≡ done u → c ≡ true
check-done true e u h = refl
check-done false e u h = cc h

check_funding_on_chain-IsThere :
    (b : Option Backend) (s : Swap) (depth : ℤ) (u : Unit {0})
    → check_funding_on_chain b s depth ≡ done u
    → IsThere b s depth
unfolding check_funding_on_chain
check_funding_on_chain-IsThere b s depth u h = or_fails-then b no_backend _ h λ node asked h₁.
    or_fails-then (node.address_utxos s.contract_addr) chain_failed _ h₁ λ listed answered h₂.
      or_fails-then s.funding no_funding _ h₂ λ f recorded h₃.
        or_fails-then (find_output f listed) funding_gone _ h₃ λ found unspent h₄.
          check-then (leb_ℤ s.amount_sats found.value) short_funding _ h₄ λ full h₅.
            check-then (found.status.confirmed && ltb_ℤ (pos 0) found.status.block_height)
              in_mempool _ h₅
              λ mined h₆. or_fails-then node.tip_height chain_failed _ h₆ λ tip tip_is h₇. record {
                node = node;
                asked = asked;
                listed = listed;
                answered = answered;
                funding = f;
                recorded = recorded;
                output = found;
                unspent = unspent;
                full = leb_ℤ-≤ℤ s.amount_sats found.value full;
                mined = mined;
                tip = tip;
                tip_is = tip_is;
                deep = check-done _ too_shallow u h₇;
              }

-- Where the Zenon leg answers the counterparty's funding, that is committed on the record and there.
abbrev pub MayLock : Option Backend → ℤ → Swap → Type 0
MayLock b now s =
    (zenon_create_waits_on_btc s ≡ false)
    ⊎ ((is_some (funding_commit_blocker now s) ≡ false) × IsThere b s (pos commit_confirmations))

waits_for-done :
    (waits : Bool) (blocker : Option Blocker) (on_chain : Call (Unit {0})) (u : Unit {0})
    → waits_for waits blocker on_chain ≡ done u
    → (waits ≡ false) ⊎ ((is_some blocker ≡ false) × (on_chain ≡ done u))
waits_for-done false blocker on_chain u h = inl refl
waits_for-done true (some x) on_chain u h = cc h
waits_for-done true none on_chain u h = inr (refl, h)

pub require_counter_leg_funding-MayLock :
    (b : Option Backend) (now : ℤ) (s : Swap) (u : Unit {0})
    → require_counter_leg_funding b now s ≡ done u
    → MayLock b now s
unfolding require_counter_leg_funding
require_counter_leg_funding-MayLock b now s u h =
    elim (waits_for-done (zenon_create_waits_on_btc s) (funding_commit_blocker now s)
      (check_funding_on_chain b s (pos commit_confirmations)) u h) [
        | inl free ↦ inl free
        | inr (committed, there) ↦
            inr (committed, check_funding_on_chain-IsThere b s (pos commit_confirmations) u there)
      ]
