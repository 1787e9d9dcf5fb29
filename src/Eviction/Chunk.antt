-- ===== src/Eviction/Chunk.antt =====
-- src/eviction/chunk.c and include/eviction_policy_chunk.h: the policy that evicts single chunks. Each
-- function holds the policy's mutex throughout. A pointer to a chunk of the pool, which is a key of the
-- table and an element of the queue, is the number of chunks before it in the pool.
pub mod Calls
pub mod Pool
pub mod Invariant
mod Written
pub mod Update
mod Reads
pub mod Release
pub mod Evict
pub mod Faults
pub mod Moved
pub mod Setup
mod Tests
use zncache.Base.{
  ℕ, ◌+◌, ◌-◌, ◌*◌, ◌/◌, ◌%◌, Bool, true, false, not, Option, none, some, List, ◌==◌, if◌then◌else◌,
  u32, u64, update, Run, ok, overrun, check, ◌>>=◌, ◌>>◌,
}
use zncache.Glib.{Links, Tables}
use zncache.MinHeap
use zncache.MinHeap.{Ptr, Minheap}
use zncache.Zones.{ZnPair, ZoneStateManager, Zbd}
use zncache.CacheMap.{CacheMap}
use zncache.Eviction.{IoType, read, write}
use zncache.Eviction.Lru.{Lru, append, promote_node}

-- `struct eviction_policy_chunk_zone`
pub record PoolZone : Type 0 where
  pub zone_id : ℕ
  pub chunks : ℕ → ZnPair
  pub chunks_in_use : ℕ
  pub filled : Bool
  pub pqueue_entry : Option Ptr

-- `struct zn_policy_chunk`, with the number of chunks of a zone from the cache
pub record ChunkPolicy : Type 0 where
  -- `lru_queue` and `chunk_to_lru_map`
  pub lru : Lru
  pub invalid_pqueue : Minheap
  pub zone_pool : ℕ → PoolZone
  pub total_chunks : ℕ
  pub max_zone_chunks : ℕ

-- The part of `struct zn_cache` that the policy reaches, with the policy.
pub record ChunkCache (D : Type 0) : Type 0 where
  pub chunk_sz : ℕ
  pub zone_size : ℕ
  pub io_size : ℕ
  pub cache_map : CacheMap
  pub policy : ChunkPolicy
  pub zone_state : ZoneStateManager
  pub disk : D

-- EVICT_LOW_THRESH_CHUNKS and the other build options
pub record Thresholds : Type 0 where
  pub low_chunks : ℕ
  pub high_chunks : ℕ
  pub low_zones : ℕ
  pub high_zones : ℕ

-- What an update may allocate: the address of a new link, and for an entry of the heap what malloc returns
-- and whether realloc succeeds.
pub record Allocations : Type 0 where
  pub link : ℕ
  pub entry : Option Ptr
  pub grown : Bool

-- What a garbage collection meets: the results of the zone commands by the zone and the chunk in turn, the
-- address of a new link by the links in use, and the memory for a read.
pub record Collection : Type 0 where
  pub zbd : ℕ → ℕ → Zbd
  pub fresh : List (ℕ × ℕ) → ℕ
  pub read_memory : Option (ℕ → ℕ)

-- `&zone_pool[zone].chunks[chunk]`, and the chunk behind such a pointer
abbrev pub chunk_at : ChunkPolicy → ℕ → ℕ → ℕ
chunk_at p zone chunk = zone * p.max_zone_chunks + chunk

abbrev pub pool_chunk : ChunkPolicy → ℕ → ZnPair
pool_chunk p a = (p.zone_pool (a / p.max_zone_chunks)).chunks (a % p.max_zone_chunks)

-- `chunks[chunk].in_use = false` and `chunks_in_use--`
abbrev pub release : PoolZone → ℕ → PoolZone
release zpc chunk = record zpc {
  chunks = update zpc.chunks chunk (record (zpc.chunks chunk) { in_use = false });
  chunks_in_use = (zpc.chunks_in_use + u32 - 1) % u32;
}

-- The zone of the pool after a chunk was written to it.
abbrev pub occupied : PoolZone → ZnPair → PoolZone
occupied zpc location =
    let zp : ZnPair = record {
      zone = location.zone;
      chunk_offset = location.chunk_offset;
      id = location.id;
      in_use = true;
    } in
    record zpc {
      zone_id = location.zone;
      chunks = update zpc.chunks location.chunk_offset zp;
      chunks_in_use = (zpc.chunks_in_use + 1) % u32;
    }

module _ (asserts : Bool) (links : Links) (tables : Tables (Option ℕ)) where
  -- The branch of a full zone, which enters the heap.
  unfoldable pub push_full : Allocations → ChunkPolicy → ℕ → Run ChunkPolicy
  push_full alloc p zone =
      let zpc = p.zone_pool zone in
      MinHeap.insert alloc.grown alloc.entry p.invalid_pqueue zone zpc.chunks_in_use
      >>= λ (entry, heap). ok (record p {
        invalid_pqueue = heap;
        zone_pool =
            update p.zone_pool zone (record zpc { pqueue_entry = some entry; filled = true });
      })

  -- The branch of a read, with what the table has for the chunk. Where it has nothing the link is not
  -- initialised.
  unfoldable pub update_read : ChunkPolicy → ℕ → ℕ → Option (Option ℕ) → Run ChunkPolicy
  update_read p fresh a none = overrun
  update_read p fresh a (some node) =
      promote_node links tables p.lru fresh a node >>= λ t. ok (record p { lru = t })

  -- `zn_policy_chunk_update`
  unfoldable pub update_chunk : Allocations → ChunkPolicy → ZnPair → IoType → Run ChunkPolicy
  unfolding push_full update_read
  update_chunk alloc p location write =
      let zpc = p.zone_pool location.zone in
      let a = chunk_at p location.zone location.chunk_offset in
      let written = record p {
        lru = append links tables p.lru alloc.link a;
        zone_pool = update p.zone_pool location.zone (occupied zpc location);
      } in
      check asserts (not (zpc.chunks location.chunk_offset).in_use)
      >> (if location.chunk_offset == (p.max_zone_chunks + u64 - 1) % u64
          then push_full alloc written location.zone
          else ok written)
  update_chunk alloc p location read =
      let a = chunk_at p location.zone location.chunk_offset in
      update_read p alloc.link a (tables.lookup p.lru.nodes a)
