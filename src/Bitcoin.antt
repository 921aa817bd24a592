-- ===== src/Bitcoin.antt =====
-- wasm/txbuild.go, wasm/estimate.go: the transactions that spend a contract.
pub mod Tx
pub mod Rate
pub mod Spend
pub mod Signed
