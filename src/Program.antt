-- ===== src/Program.antt =====
-- src/zncache.c: the program that drives the cache with threads over a workload.
pub mod Workload
pub mod Threads
pub mod Setup
pub mod Evictor
pub mod Cached
