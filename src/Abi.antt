-- ===== src/Abi.antt =====
-- wasm/znn/htlcabi.go: the calls to Zenon's HTLC contract, as bytes.
pub mod Words
pub mod Calls
pub mod Decode
pub mod RoundTrip
pub mod Method
pub mod Holds
