-- ===== src/Contract.antt =====
-- wasm/htlc.go: the Bitcoin contract script of a swap, written and read back.
pub mod Script
pub mod Num
pub mod Build
pub mod Parse
pub mod Numbers
pub mod Canonical
pub mod Panics
pub mod Secret
