-- ===== src/Cache/Get/Hit.antt =====
-- src/cache.c: zn_cache_get of an id whose data are on the disk.
use zncache.Base.{
  ℕ, ◌+◌, ◌-◌, ◌%◌, ◌≤◌, ◌<◌, ◌≡◌, refl, ap, arith, inl, inr, Bool, Option, some, u32, u64, update,
  eq_or_ne, ok, Returns, returns, Returns-bind, Returns-value,
}
use zncache.Glib.{Queues, Links, Tables, assoc}
use zncache.Zones.{ZnPair}
use zncache.CacheMap.{CacheMap, ZoneMapResult, Find, located, waits, writes, find, copied}
use zncache.CacheMap.Invariant.{location_of, type_in, IsConsistent, IsConsistent-same}
use zncache.CacheMap.Lookup.{Outcome, find_correct}
use zncache.CacheMap.Clear.{entry_at}
use zncache.Eviction.{read}
use zncache.Eviction.Lru.Moves.{IsLinked, IsFresh}
use zncache.Eviction.Promotional.Calls.{Keeps, after_use, update_correct}
use zncache.Cache.Disk.{Device}
use zncache.Cache.Disk.Read.{read_from_disk_correct}
use zncache.Cache.Get.{Cache, Surroundings, location_pointer, get_located, get_copied, get}

-- A lookup of an id with a location gives that location.
located_only :
    (m m' : CacheMap) (id : ℕ) (l : ZnPair) (f : Find)
    → location_of m id ≡ some l
    → Outcome m id f m'
    → (f ≡ located l)
      × (m'.zone_map ≡ m.zone_map)
      × (m'.active_readers ≡ update m.active_readers l.zone ((m.active_readers l.zone + 1) % u32))
located_only m m' id l (located l') e (at, same, readers) =
    let there : l' ≡ l = cc in (ap located there, same, rw (← there) readers)
located_only m m' id l waits e (cond, same) =
    cc (ap type_in (entry_at (assoc m.zone_map id) l e), cond)
located_only m m' id l writes e (_, absent, _, _, _) = cc

-- A reader that is counted and counted out again.
readers_restored :
    (readers : ℕ → ℕ) (z zone : ℕ)
    → readers z < u32
    → (let counted = update readers z ((readers z + 1) % u32) in
        update counted z ((counted z + u32 - 1) % u32) zone)
      ≡ readers zone
readers_restored readers z zone few = elim (eq_or_ne z zone) [
  | inl here ↦ rw (← here) (ground (arith, few))
  | inr elsewhere ↦ ground (arith, elsewhere)
]

-- What a hit leaves: the data of the place, the reader gone again, and the use noted.
pub record HitLeaves {D : Type 0} (device : Device D) (c : Cache D) (l : ZnPair)
    (data' : Option (ℕ → ℕ)) (c' : Cache D) : Type 0 where
  pub loaded :
      (bytes : ℕ → ℕ)
      → data' ≡ some bytes
      → (i : ℕ) → i < c.chunk_sz
      → bytes i ≡ device.byte c.disk (location_pointer c l + i)
  pub disk_kept : (j : ℕ) → device.byte c'.disk j ≡ device.byte c.disk j
  pub zones_kept : c'.zone_state ≡ c.zone_state
  pub ids_kept : c'.cache_map.zone_map ≡ c.cache_map.zone_map
  pub readers : (zone : ℕ) → c'.cache_map.active_readers zone ≡ c.cache_map.active_readers zone
  pub used : Keeps c.eviction_policy (after_use c.eviction_policy l read) c'.eviction_policy
  pub counted : c'.hits ≡ (c.hits + 1) % u64
  pub consistent : IsConsistent c'.cache_map
  pub chunk : c'.chunk_sz ≡ c.chunk_sz
  pub zone : c'.zone_size ≡ c.zone_size
  pub io : c'.io_size ≡ c.io_size

module _ {D : Type 0} (asserts : Bool) (q : Queues) (ids : Tables ZoneMapResult) (chunks : Tables ℕ)
    (links : Links) (tables : Tables (Option ℕ)) (device : Device D) (low_thresh_zones : ℕ)
    (env : Surroundings) where
  get_located-HitLeaves :
      (c : Cache D) (m' : CacheMap) (l : ZnPair) (memory : ℕ → ℕ)
      → IsConsistent m'
      → m'.zone_map ≡ c.cache_map.zone_map
      → m'.active_readers
        ≡ update c.cache_map.active_readers l.zone ((c.cache_map.active_readers l.zone + 1) % u32)
      → c.cache_map.active_readers l.zone < u32
      → env.read_memory ≡ some memory
      → 0 < c.io_size
      → location_pointer c l + c.chunk_sz ≤ u64
      → IsLinked c.eviction_policy.lru
      → IsFresh c.eviction_policy.lru (env.fresh c.eviction_policy.lru.queue) l.zone
      → l.chunk_offset < c.eviction_policy.zone_max_chunks
      → c.eviction_policy.zone_max_chunks < u32
      → Returns
          (λ (data', c'). HitLeaves device c l data' c')
          (get_located asserts q ids chunks links tables device low_thresh_zones env
            (record c { cache_map = m' })
            l)
  unfolding get_located
  get_located-HitLeaves c m' l memory v same more few alloc progress range linked free inside fits =
      rw alloc (
        Returns-bind
          (read_from_disk_correct device memory c.disk c.chunk_sz c.io_size (location_pointer c l)
            progress range)
          λ (bytes, d) (kept, read_all, _).
            Returns-bind
              (update_correct links tables c.eviction_policy (env.fresh c.eviction_policy.lru.queue)
                l read linked free tt inside fits)
              λ p keeps. returns (record {
                loaded = read_all;
                disk_kept = kept;
                zones_kept = refl;
                ids_kept = same;
                readers =
                    λ zone. rw more (readers_restored c.cache_map.active_readers l.zone zone few);
                used = keeps;
                counted = refl;
                consistent = IsConsistent-same m' m'.zone_map _ (λ j. refl) v;
                chunk = refl;
                zone = refl;
                io = refl;
              }))

  -- zn_cache_get of an id that has a location, with memory at hand and a reader count that does not
  -- overflow, returns. Its data, if any, are the bytes of the chunk at that location; no byte of the disk,
  -- no zone, no entry and, in the end, no count of readers is changed, the use of the zone is noted in the
  -- policy, and the hits are one more.
  pub get_hit_correct :
      (fuel : ℕ) (c : Cache D) (id : ℕ) (l : ZnPair) (random_buffer memory : ℕ → ℕ)
      → IsConsistent c.cache_map
      → location_of c.cache_map id ≡ some l
      → c.cache_map.active_readers l.zone < u32
      → env.read_memory ≡ some memory
      → 0 < c.io_size
      → location_pointer c l + c.chunk_sz ≤ u64
      → IsLinked c.eviction_policy.lru
      → IsFresh c.eviction_policy.lru (env.fresh c.eviction_policy.lru.queue) l.zone
      → l.chunk_offset < c.eviction_policy.zone_max_chunks
      → c.eviction_policy.zone_max_chunks < u32
      → Returns
          (λ (data', c'). HitLeaves device c l data' c')
          (get asserts q ids chunks links tables device low_thresh_zones env fuel c id
            random_buffer)
  unfolding get get_copied copied
  get_hit_correct fuel c id l random_buffer memory v at few alloc progress range linked free inside
        fits =
      let ((f, m'), e, (v', outcome)) =
        Returns-value (find_correct asserts ids chunks c.cache_map id v) in
      let (hit, same, more) = located_only c.cache_map m' id l f at outcome in
      let found : find asserts ids chunks c.cache_map id ≡ ok (located l, m') = rw (← hit) e in
      let entry = entry_at (assoc c.cache_map.zone_map id) l at in
      rw (found, ids.lookup_lem m'.zone_map id, same, entry)
        (get_located-HitLeaves c m' l memory v' same more few alloc progress range linked free
          inside fits)
