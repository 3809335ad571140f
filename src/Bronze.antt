-- ===== src/Bronze.antt =====
-- The bronze store of objects: src/ingestion/bronze.
pub mod Storage
pub mod Upload
pub mod Verification
pub mod Verified
pub mod Orphan
pub mod Adopted
pub mod Reconciled
pub mod Candidates
pub mod Memory
mod Tests
