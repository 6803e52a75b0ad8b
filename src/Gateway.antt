-- ===== src/Gateway.antt =====
-- crates/evo-gateway: the admission of tool calls.
pub mod Manifest
pub mod Impact
pub mod Pipeline
pub mod Tighten
pub mod Mediation
pub mod Answers
pub mod Guarded
pub mod Trail
pub mod Preview
pub mod Spending
mod Samples
mod Examples
mod BudgetExamples
