-- ===== src/Executor.antt =====
-- src/executor.c: the choice of the index for a SELECT.
pub mod Bounds
pub mod Between
mod Tests
