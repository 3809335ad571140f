-- ===== src/Control.antt =====
-- The control state of the ingestion: src/ingestion/control.
pub mod Tables
pub mod Watermarks
pub mod Runs
pub mod Commit
pub mod TableLease
pub mod History
pub mod Batch
mod Tests
