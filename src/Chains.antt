-- ===== src/Chains.antt =====
-- wasm/chainid.go: whether two parties are on the same chains.
pub mod Fingerprint
pub mod Compare
pub mod Same
pub mod Near
