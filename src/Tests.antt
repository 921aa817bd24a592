-- ===== src/Tests.antt =====
-- The theorems at concrete inputs.
mod Bitcoin
mod Contracts
mod Swaps
mod Chains
mod Stores
mod Offers
mod Verified
mod World
mod Spends
mod Outcomes
mod Refreshes
mod Parties
mod Records
mod Wallets
mod Reaches
