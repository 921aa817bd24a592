-- ===== src/Outcome.antt =====
-- wasm/manager.go: Redeem and Refund, how they record what they did, and the calls that set a field.
pub mod Retry
pub mod Spend
pub mod Fields
pub mod Attached
pub mod Lands
pub mod Ready
pub mod Redeemed
pub mod Refunded
