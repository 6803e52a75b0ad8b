-- ===== src/Daemon.antt =====
-- crates/evo-daemon: the process that writes the log, with its runtime, its replay and its triggers.
pub mod Error
pub mod Action
pub mod Machine
pub mod Plan
pub mod History
pub mod Effects
pub mod Commands
pub mod Drive
pub mod Replay
pub mod Operations
pub mod Consistency
pub mod Settled
pub mod Trigger
pub mod Scheduler
mod Columns
mod Samples
mod Examples
mod RuntimeExamples
mod TriggerExamples
