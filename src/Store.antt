-- ===== src/Store.antt =====
-- internal/store: the metadata database, as far as runs, the execution queue and replay keys go.
pub mod Tables
pub mod Lifecycle
pub mod Queue
pub mod Registry
pub mod Sound
pub mod History
