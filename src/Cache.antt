-- ===== src/Cache.antt =====
-- src/cache.c: the cache itself, over the zones, the map of the data and the eviction policy.
pub mod Disk
pub mod Buffer
pub mod Get
