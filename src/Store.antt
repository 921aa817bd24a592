-- ===== src/Store.antt =====
-- wasm/store.go: the store of swap records.
pub mod Records
pub mod Saved
pub mod Stale
