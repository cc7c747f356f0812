-- ===== src/Registry.antt =====
-- src/index_registry.c: the index of each table, by name.
pub mod Entries
pub mod Lookup
mod Tests
