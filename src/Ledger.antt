-- ===== src/Ledger.antt =====
-- wasm/znn/ledger.go: finding on the Zenon ledger the secret that an unlock published, and the
-- transaction that created an HTLC.
pub mod Scan
pub mod Blocks
pub mod Search
pub mod Preimage
pub mod Found
pub mod Creates
pub mod Candidates
