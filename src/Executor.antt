-- ===== src/Executor.antt =====
-- internal/executor: admission, the execution queue's drain, deferred history and retries.
pub mod State
pub mod Backlog
pub mod Admission
pub mod Trigger
pub mod Retries
pub mod Completion
pub mod Writer
pub mod Drain
pub mod Step
pub mod Capacity
pub mod Fairness
pub mod Bounds
pub mod SingleFlight
pub mod Overlap
