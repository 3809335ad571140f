-- ===== src/Warehouse.antt =====
-- The warehouse: src/warehouse.
pub mod PublishRuns
mod Tests
