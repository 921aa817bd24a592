-- ===== src/Manager.antt =====
-- wasm/manager.go: the operations on a swap.
pub mod Legs
pub mod Recovered
pub mod Hours
pub mod Window
pub mod Audit
pub mod Accept
pub mod Expect
pub mod Fill
pub mod Entries
pub mod Checked
pub mod Create
pub mod Steps
pub mod Allowed
pub mod Created
