-- ===== src/Eviction.antt =====
-- src/eviction and include/eviction_policy.h: the policies that choose what leaves the cache.
pub mod Lru
pub mod Promotional
pub mod Chunk

-- `enum zn_io_type`
pub data IoType : Type 0 where
  read write : IoType
