-- ===== src/Executor/Capacity.antt =====
-- The books of the executor: slots, active runs and the count of runs per job.
pub mod Frame
pub mod Added
pub mod Books
pub mod Triggered
pub mod Drained
pub mod Stepped
pub mod Launches
pub mod Drains
pub mod Retried
pub mod Moves
