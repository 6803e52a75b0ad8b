-- ===== src/Runlog.antt =====
-- crates/evo-runlog/src: the log of the runs and its snapshots, as the SQL statements act on the tables.
pub mod Store
pub mod Snapshot
pub mod Blobs
pub mod Select
pub mod Numbered
pub mod Append
pub mod Latest
pub mod Samples
mod Examples
