-- ===== src/Protocol.antt =====
-- crates/evo-protocol: the data that every other crate exchanges.
pub mod Base
pub mod Effect
pub mod Lifecycle
pub mod Turn
pub mod Governance
pub mod Accounting
pub mod Event
pub mod Kind
pub mod Rpc
