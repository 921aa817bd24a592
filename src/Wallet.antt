-- ===== src/Wallet.antt =====
-- wasm/walletblock.go: the calls that a browser wallet is asked to sign.
pub mod Block
pub mod Funding
pub mod Plan
pub mod Unlocks
pub mod There
pub mod Locks
