-- ===== src/Store/Sound.antt =====
-- The invariant of the tables under the operations of internal/store/queue.go and the run transitions
-- of internal/store/store.go.
pub mod Rows
pub mod Order
pub mod Invariant
pub mod Inserts
pub mod Inserted
pub mod Deletes
pub mod Steps
