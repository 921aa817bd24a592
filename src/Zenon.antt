-- ===== src/Zenon.antt =====
-- wasm/znn/client.go: an HTLC entry, and how it is checked against what was agreed.
pub mod Entry
pub mod Rpc
pub mod Address
pub mod Amount
pub mod Exact
pub mod Owned
pub mod Verify
pub mod Verdict
pub mod Sound
pub mod Remaining
