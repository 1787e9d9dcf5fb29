-- ===== src/Eviction/Chunk/Moved.antt =====
-- src/eviction/chunk.c: a chunk that the garbage collection moved, and its next eviction.
use zncache.Base.{ℕ, ◌<◌, ◌≡◌, ◌≢◌, Bool, true, Option, update}
use zncache.Glib.{Queues, Links, Tables}
use zncache.Zones.{ZnPair}
use zncache.CacheMap.{ZoneMapResult}
use zncache.Cache.Disk.{Device}
use zncache.Eviction.Chunk.{
  ChunkPolicy, ChunkCache, Thresholds, PoolZone, chunk_at, pool_chunk, release,
}
use zncache.Eviction.Chunk.Calls.{moved}
use zncache.Eviction.Chunk.Evict.{Managed}

module _ {D : Type 0} (asserts : Bool) (q : Queues) (ids : Tables ZoneMapResult) (chunks : Tables ℕ)
    (links : Links) (tables : Tables (Option ℕ)) (device : Device D) (thresholds : Thresholds)
    (c : ChunkCache D) (fresh old i : ℕ) (location : ZnPair) (m : Managed c)
    (inside : old < c.zone_state.num_zones) (below : i < c.policy.max_zone_chunks)
    (was_used : ((c.policy.zone_pool old).chunks i).in_use ≡ true)
    (room : location.chunk_offset < c.policy.max_zone_chunks) (other : location.zone ≢ old) where
  -- The policy and the cache after the garbage collection moved the chunk to the location.
  abbrev pub p' : ChunkPolicy
  p' = moved asserts q ids chunks links tables device thresholds c.policy fresh old i location

  abbrev pub a : ℕ
  a = chunk_at p' location.zone location.chunk_offset

  -- The pool after the eviction of the chunk at the new place.
  abbrev released : ℕ → PoolZone
  released =
      let zp = pool_chunk p' a in
      update p'.zone_pool zp.zone (release (p'.zone_pool zp.zone) zp.chunk_offset)
