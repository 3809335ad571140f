-- ===== src/Extraction.antt =====
-- The extraction of the rows of a source table: src/ingestion/extraction.
pub mod Pages
mod Tests
