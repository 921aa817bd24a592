-- ===== src/Lifecycle.antt =====
-- wasm/manager.go: the operations on a swap one after another, each on the record that was saved.
pub mod Reach
pub mod Known
