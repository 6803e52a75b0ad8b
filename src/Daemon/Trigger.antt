-- ===== src/Daemon/Trigger.antt =====
-- crates/evo-daemon/src/trigger.rs
pub mod Calendar
pub mod Schedule
pub mod Store
