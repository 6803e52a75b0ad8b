-- ===== src/Kernel.antt =====
-- crates/evo-kernel: the pure state machine of a run. Definitions in Rng, State, Reduce and Decide;
-- the other modules are named for what they prove.
pub mod Rng
pub mod State
pub mod Hash
pub mod Reduce
pub mod Decide
pub mod History
pub mod Taint
pub mod Approvals
pub mod Approved
pub mod Accounts
pub mod WallTime
pub mod Panics
pub mod Waiting
pub mod Gates
pub mod Turns
pub mod Replan
pub mod Ledger
pub mod Log
pub mod Stream
pub mod Samples
mod Examples
mod LoopExamples
