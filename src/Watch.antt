-- ===== src/Watch.antt =====
-- wasm/manager.go: Refresh, and what it finds out from the chains.
pub mod Backend
pub mod Pick
pub mod Bind
pub mod Settle
pub mod Poll
pub mod Keeps
pub mod Refreshed
pub mod Invariant
pub mod Best
pub mod Bound
