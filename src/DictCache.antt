-- ===== src/DictCache.antt =====
-- src/dict_cache.c: the router's response cache, a fixed array of slots with LRU eviction.
-- Each operation is the critical section that the code runs under the cache's rwlock.
pub mod Slots
pub mod Reads
pub mod Puts
pub mod Valid
pub mod Ops
pub mod Evict
pub mod History
pub mod Recent
mod Tests
