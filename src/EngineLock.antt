-- ===== src/EngineLock.antt =====
-- src/engine_lock.c: the read-write locks of the tables.
pub mod Slots
pub mod Register
pub mod Exclusion
mod Tests
