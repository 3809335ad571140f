-- ===== src/Contract.antt =====
-- The contracts of the source tables: src/ingestion/contract.
pub mod Columns
pub mod Equality
pub mod Tables
pub mod Supported
mod Tests
