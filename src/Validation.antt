-- ===== src/Validation.antt =====
-- The validation of the source records and the quarantine: src/ingestion/extraction.
pub mod Values
pub mod Rules
pub mod Pipeline
pub mod References
pub mod Corruption
pub mod Batch
pub mod Passed
pub mod Split
pub mod Steps
pub mod Parents
pub mod Pages
pub mod Accounted
pub mod Outcome
pub mod Contracts
pub mod Sound
mod Tests
