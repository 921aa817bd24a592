-- ===== src/Swap.antt =====
-- wasm/swap.go: the record of one side of a swap, and what is decided from it.
pub mod Record
pub mod Roles
pub mod Terms
pub mod Commit
pub mod Build
pub mod Keys
pub mod Offer
pub mod Joined
pub mod Decode
pub mod Decoded
pub mod Wellformed
pub mod Amounts
