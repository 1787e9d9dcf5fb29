-- ===== src/Cache/Get/Sound.antt =====
-- src/cache.c: what holds of the whole cache between two calls of zn_cache_get, and what it promises.
pub mod Places
pub mod Writing
pub mod Refill
pub mod Hit
pub mod Miss
pub mod Calls
pub mod Evicting
pub mod Samples
pub mod Used
use zncache.Base.{ℕ, ◌+◌, ◌*◌, ◌≤◌, ◌<◌, ◌≡◌, ◌≢◌, some, length, u32, u64}
use zncache.Zones.{ZnPair}
use zncache.CacheMap.{result_cond}
use zncache.CacheMap.Invariant.{location_of, type_of}
use zncache.Cache.Disk.{Device}
use zncache.Cache.Buffer.{with_id}
use zncache.Cache.Get.{Cache, location_pointer}
use zncache.Cache.Get.Ready.{Ready}

-- The sizes fit: the chunks of a zone into the zone, the zones into 64 bits, and an id into a chunk.
pub record Sizes {D : Type 0} (c : Cache D) : Type 0 where
  pub some_zone : 0 < c.zone_state.num_zones
  pub some_active : 0 < c.zone_state.max_nr_active_zones
  pub agree : c.eviction_policy.zone_max_chunks ≡ c.zone_state.max_zone_chunks
  pub long : 4 ≤ c.chunk_sz
  pub short : c.chunk_sz < u32
  pub progress : 0 < c.io_size
  pub chunks_fit : c.zone_state.max_zone_chunks * c.chunk_sz ≤ c.zone_size
  pub zones_fit : c.zone_state.num_zones * c.zone_size ≤ u64

-- The location lies on the disk, and the disk holds the buffer of the id there.
pub record Holds {D : Type 0} (device : Device D) (buffer : ℕ → ℕ) (c : Cache D) (id : ℕ)
    (l : ZnPair) : Type 0 where
  pub zone_inside : l.zone < c.zone_state.num_zones
  pub chunk_inside : l.chunk_offset < c.zone_state.max_zone_chunks
  pub bytes :
      (i : ℕ) → i < c.chunk_sz → device.byte c.disk (location_pointer c l + i) ≡ with_id id buffer i

-- A cache between two calls: it is ready, no thread is in a call, and the disk holds the data of every id
-- that the map has a location for.
pub record Sound {D : Type 0} (device : Device D) (buffer : ℕ → ℕ) (c : Cache D) : Type 0 where
  pub ready : Ready c
  pub idle : c.zone_state.writes_occurring ≡ 0
  pub no_reader : (z : ℕ) → c.cache_map.active_readers z ≡ 0
  pub no_writer : (id : ℕ) → type_of c.cache_map id ≢ some result_cond
  pub sizes : Sizes c
  pub held :
      (id : ℕ) (l : ZnPair) → location_of c.cache_map id ≡ some l → Holds device buffer c id l
