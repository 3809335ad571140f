-- ===== src/Ingestion.antt =====
-- The ingestion of one source table, from its request to its commit: src/ingestion/service.py.
pub mod World
pub mod Uploads
pub mod Recording
pub mod Load
pub mod Service
pub mod Released
pub mod Reuse
pub mod Reused
mod Tests
