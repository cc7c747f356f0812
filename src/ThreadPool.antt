-- ===== src/ThreadPool.antt =====
-- src/threadpool.c: the worker pool with its bounded queue, its resizing monitor and the flags of
-- its shutdown.
pub mod Pool
pub mod Slots
pub mod Invariant
pub mod Monitor
pub mod Create
pub mod World
pub mod Fifo
pub mod Results
pub mod Stats
mod Tests
