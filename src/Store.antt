-- ===== src/Store.antt =====
-- internal/store/store.go.
pub mod Disk
pub mod Commands
pub mod Undo
pub mod Invariant
pub mod Atomic
pub mod Order
pub mod Reload
pub mod Reopen
