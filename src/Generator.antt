-- ===== src/Generator.antt =====
-- The generator of source data: src/generator.
pub mod Transitions
pub mod Progress
pub mod Commits
mod Tests
