-- ===== src/Cache/Get/Ready.antt =====
-- src/cache.c: a cache from which zones can be evicted, and what an eviction leaves.
use zncache.Base.{
  ℕ, ◌<◌, ◌≡◌, refl, ◌∙◌, arith, ◌⊎◌, true, false, none, some, List, [], ◌∷◌, ◌++◌, length, ◌+◌,
  ◌≤◌, u32,
}
use zncache.Glib.{assoc}
use zncache.Zones.{full, active, Zone, ZnPair}
use zncache.Zones.Invariant.{IsValid}
use zncache.CacheMap.Invariant.{location_of, type_of, IsConsistent}
use zncache.CacheMap.{result_cond}
use zncache.Eviction.Lru.Queue.{elements, listed}
use zncache.Eviction.Lru.Moves.{IsLinked}
use zncache.Eviction.Promotional.Calls.{zones}
use zncache.Cache.Get.{Cache, is_positive}

-- A chunk that was written: its zone is full, or has come past it.
abbrev pub WrittenAt : Zone → ℕ → Type 0
WrittenAt zone chunk = (zone.state ≡ full) ⊎ ((zone.state ≡ active) × (chunk < zone.chunk_offset))

-- A cache that can be evicted from: its parts are in order, the zones of the policy are the full ones, data
-- lie in chunks that were written, and no zone has a reader.
pub record Ready {D : Type 0} (c : Cache D) : Type 0 where
  pub consistent : IsConsistent c.cache_map
  pub valid : IsValid c.zone_state
  pub linked : IsLinked c.eviction_policy.lru
  pub all_full :
      (z : ℕ)
      → listed z (zones c.eviction_policy) ≡ true
      → (z < c.zone_state.num_zones) × ((c.zone_state.state z).state ≡ full)
  pub queued :
      (z : ℕ)
      → z < c.zone_state.num_zones
      → (c.zone_state.state z).state ≡ full
      → listed z (zones c.eviction_policy) ≡ true
  pub placed :
      (id : ℕ) (l : ZnPair)
      → location_of c.cache_map id ≡ some l
      → WrittenAt (c.zone_state.state l.zone) l.chunk_offset
  pub idle : (z : ℕ) → is_positive (c.cache_map.active_readers z) ≡ false
  pub room :
      length (zones c.eviction_policy)
        + length c.zone_state.active
        + length c.zone_state.free
        + c.zone_state.writes_occurring
      ≤ c.zone_state.num_zones

-- The sizes of the cache and of its parts are those of another.
pub record SameShape {D : Type 0} (c c' : Cache D) : Type 0 where
  pub chunk : c'.chunk_sz ≡ c.chunk_sz
  pub zone : c'.zone_size ≡ c.zone_size
  pub io : c'.io_size ≡ c.io_size
  pub in_policy : c'.eviction_policy.zone_max_chunks ≡ c.eviction_policy.zone_max_chunks
  pub in_zones : c'.zone_state.max_zone_chunks ≡ c.zone_state.max_zone_chunks
  pub number : c'.zone_state.num_zones ≡ c.zone_state.num_zones

pub SameShape-refl : {D : Type 0} (c : Cache D) → SameShape c c
SameShape-refl c = record {
  chunk = refl;
  zone = refl;
  io = refl;
  in_policy = refl;
  in_zones = refl;
  number = refl;
}

pub SameShape-after :
    {D : Type 0} {c c' c'' : Cache D} → SameShape c c' → SameShape c' c'' → SameShape c c''
SameShape-after s t = record {
  chunk = t.chunk ∙ s.chunk;
  zone = t.zone ∙ s.zone;
  io = t.io ∙ s.io;
  in_policy = t.in_policy ∙ s.in_policy;
  in_zones = t.in_zones ∙ s.in_zones;
  number = t.number ∙ s.number;
}

-- Zones were evicted in the order of the policy: they are free, behind the other free zones, their data are
-- out of the map, and the data of every other zone are where they were.
pub record Evicts {D : Type 0} (c : Cache D) (gone : List ℕ) (c' : Cache D) : Type 0 where
  pub order : zones c.eviction_policy ≡ gone ++ zones c'.eviction_policy
  pub freed : c'.zone_state.free ≡ c.zone_state.free ++ gone
  pub emptied :
      (id : ℕ) (l : ZnPair)
      → location_of c.cache_map id ≡ some l
      → listed l.zone gone ≡ true
      → location_of c'.cache_map id ≡ none
  pub kept :
      (id : ℕ) (l : ZnPair)
      → location_of c.cache_map id ≡ some l
      → listed l.zone gone ≡ false
      → location_of c'.cache_map id ≡ some l
  pub nowhere : (id : ℕ) → location_of c.cache_map id ≡ none → location_of c'.cache_map id ≡ none
  pub disk_kept : c'.disk ≡ c.disk
  pub readers : c'.cache_map.active_readers ≡ c.cache_map.active_readers
  pub entries :
      (id : ℕ)
      → location_of c.cache_map id ≡ none
      → assoc c'.cache_map.zone_map id ≡ assoc c.cache_map.zone_map id
  pub types :
      (id : ℕ)
      → type_of c'.cache_map id ≡ some result_cond
      → type_of c.cache_map id ≡ some result_cond
  pub shape : SameShape c c'
  pub active_kept : c'.zone_state.active ≡ c.zone_state.active
  pub writes : c'.zone_state.writes_occurring ≡ c.zone_state.writes_occurring
  pub limit : c'.zone_state.max_nr_active_zones ≡ c.zone_state.max_nr_active_zones
  pub number : c'.zone_state.num_zones ≡ c.zone_state.num_zones

pub length-elements : (q : List (ℕ × ℕ)) → length (elements q) ≡ length q
length-elements [] = refl
length-elements ((n, x) ∷ q) = omega (arith, length-elements q)

-- A `guint` holds the number of the zones in the policy.
pub Ready-short : {D : Type 0} (c : Cache D) → Ready c → length c.eviction_policy.lru.queue < u32
Ready-short c r =
    omega (arith, r.room, r.valid.zones_fit, length-elements c.eviction_policy.lru.queue)
