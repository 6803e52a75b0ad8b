-- ===== src/Daemon/Consistency.antt =====
-- The state that the runtime of crates/evo-daemon/src/runtime.rs carries is the replay of its log, after
-- each operation and at each failure.
pub mod InStep
pub mod Restore
pub mod Written
pub mod Emit
pub mod Keeps
pub mod Emission
pub mod Checkpoint
pub mod Reads
pub mod Calls
pub mod Steps
pub mod Loop
pub mod Requests
pub mod Sync
pub mod Writes
pub mod Decision
