-- ===== src/Cache/Get/Fill.antt =====
-- src/cache.c: the part of zn_cache_get that fills a chunk, once it has a location.
use zncache.Base.{
  ℕ, ◌+◌, ◌%◌, ◌≤◌, ◌<◌, ◌≡◌, ◌≢◌, refl, arith, ◌⊎◌, inl, inr, Bool, true, Bool-cases, Option, none,
  some, leb, u32, u64, Returns, returns, Returns-bind, Returns-map, ◌>>=◌,
}
use zncache.Glib.{Queues, Links, Tables, assoc}
use zncache.Zones.{ZnPair}
use zncache.Zones.Calls.{failed_to_write}
use zncache.Zones.Invariant.{IsValid}
use zncache.Zones.Return.{
  Outstanding, Written, Unwritten, Finishes, return_active_zone_correct, failed_to_write_correct,
}
use zncache.CacheMap.{CacheMap, ZoneMapResult, result_cond, result_empty}
use zncache.CacheMap.Invariant.{location_of, type_of, IsConsistent}
use zncache.CacheMap.Fill.{insert_places, fail_correct}
use zncache.Eviction.{write}
use zncache.Eviction.Lru.Moves.{IsLinked, IsFresh}
use zncache.Eviction.Promotional.Calls.{Keeps, IsNewZone, after_use, update_correct}
use zncache.Cache.Disk.{Device}
use zncache.Cache.Disk.Write.{Outside, write_out_correct}
use zncache.Cache.Buffer.{with_id, gen_write_buffer}
use zncache.Cache.Get.{Cache, Surroundings, location_pointer, undo_map, publish, fill}

-- The map after the write of an id ended: it is consistent, and only the entry of the id is another.
pub record OnlyId (m : CacheMap) (id : ℕ) (m' : CacheMap) : Type 0 where
  pub consistent : IsConsistent m'
  pub others : (j : ℕ) → j ≢ id → assoc m'.zone_map j ≡ assoc m.zone_map j
  pub readers : m'.active_readers ≡ m.active_readers

-- The disk after a write to the place of a chunk.
abbrev pub KeptOutside : {D : Type 0} → Device D → Cache D → ZnPair → Cache D → Type 0
KeptOutside device c l c' =
    (j : ℕ)
    → Outside (location_pointer c l) c.chunk_sz j
    → device.byte c'.disk j ≡ device.byte c.disk j

-- The sizes of the cache are those of another.
pub record SameSizes {D : Type 0} (c c' : Cache D) : Type 0 where
  pub chunk : c'.chunk_sz ≡ c.chunk_sz
  pub zone : c'.zone_size ≡ c.zone_size
  pub io : c'.io_size ≡ c.io_size

-- After a success: the data are at the location, the map says so, and the zone was given back.
pub record Stored {D : Type 0} (device : Device D) (c : Cache D) (id : ℕ) (l : ZnPair)
    (bytes : ℕ → ℕ) (c' : Cache D) : Type 0 where
  pub on_disk : (i : ℕ) → i < c.chunk_sz → device.byte c'.disk (location_pointer c l + i) ≡ bytes i
  pub kept : KeptOutside device c l c'
  pub zones : Written c.zone_state l c'.zone_state
  pub map : OnlyId c.cache_map id c'.cache_map
  pub place : location_of c'.cache_map id ≡ some l
  pub policy : Keeps c.eviction_policy (after_use c.eviction_policy l write) c'.eviction_policy
  pub counted : c'.misses ≡ (c.misses + 1) % u64
  pub sizes : SameSizes c c'

-- After a failed write: the id has neither a location nor a writer, and the chunk is to be had again.
pub record Undone {D : Type 0} (device : Device D) (c : Cache D) (id : ℕ) (l : ZnPair)
    (c' : Cache D) : Type 0 where
  pub kept : KeptOutside device c l c'
  pub zones : Unwritten c.zone_state l c'.zone_state
  pub map : OnlyId c.cache_map id c'.cache_map
  pub entry : type_of c'.cache_map id ≡ some result_empty
  pub policy : c'.eviction_policy ≡ c.eviction_policy
  pub counted : c'.misses ≡ c.misses
  pub sizes : SameSizes c c'

abbrev pub Filled :
    {D : Type 0} → Device D → Cache D → ℕ → ZnPair → (ℕ → ℕ) → Option (ℕ → ℕ) → Cache D → Type 0
Filled device c id l buffer data' c' =
    ((data' ≡ some (with_id id buffer)) × Stored device c id l (with_id id buffer) c')
    ⊎ ((data' ≡ none) × Undone device c id l c')

module _ {D : Type 0} (asserts : Bool) (q : Queues) (ids : Tables ZoneMapResult) (chunks : Tables ℕ)
    (links : Links) (tables : Tables (Option ℕ)) (device : Device D) (low_thresh_zones : ℕ)
    (env : Surroundings) (c : Cache D) (id : ℕ) (l : ZnPair) (valid : IsValid c.zone_state)
    (out : Outstanding c.zone_state l) (v : IsConsistent c.cache_map)
    (writing : type_of c.cache_map id ≡ some result_cond) where
  -- The metadata after a write that put the bytes in their place.
  publish-Stored :
      (d : D) (bytes : ℕ → ℕ)
      → ((i : ℕ) → i < c.chunk_sz → device.byte d (location_pointer c l + i) ≡ bytes i)
      → KeptOutside device c l (record c { disk = d })
      → Finishes (env.zbd 0) c.zone_state
      → id < 2147483648
      → assoc (c.cache_map.data_map l.zone) l.chunk_offset ≡ none
      → IsLinked c.eviction_policy.lru
      → IsFresh c.eviction_policy.lru (env.fresh c.eviction_policy.lru.queue) l.zone
      → IsNewZone c.eviction_policy l write
      → l.chunk_offset < c.eviction_policy.zone_max_chunks
      → c.eviction_policy.zone_max_chunks < u32
      → Returns
          (λ (data', c'). (data' ≡ some bytes) × Stored device c id l bytes c')
          (publish asserts q ids chunks links tables device low_thresh_zones env
            (record c { disk = d })
            id
            l
            bytes)
  unfolding publish
  publish-Stored d bytes stored kept works small vacant linked free new inside fits =
      Returns-bind (return_active_zone_correct asserts q c.zone_state l valid out (env.zbd 0) works)
        λ (_, z) (_, written).
          Returns-bind
            (update_correct links tables c.eviction_policy (env.fresh c.eviction_policy.lru.queue) l
              write linked free new inside fits)
            λ p keeps.
              Returns-bind
                (insert_places asserts ids chunks c.cache_map id l v writing small vacant)
                λ m (consistent, place, others, readers). returns (
                  refl,
                  record {
                    on_disk = stored;
                    kept = kept;
                    zones = written;
                    map = record { consistent = consistent; others = others; readers = readers };
                    place = place;
                    policy = keeps;
                    counted = refl;
                    sizes = record { chunk = refl; zone = refl; io = refl };
                  },
                )

  undo-Undone :
      (d : D)
      → KeptOutside device c l (record c { disk = d })
      → Returns
          (λ (data', c'). (data' ≡ none) × Undone device c id l c')
          (failed_to_write asserts q c.zone_state l >>= λ z.
            undo_map asserts q ids chunks links tables device low_thresh_zones env
              (record c { disk = d; zone_state = z })
              id)
  undo-Undone d kept =
      Returns-bind (failed_to_write_correct asserts q c.zone_state l valid out) λ z back.
        Returns-bind (fail_correct asserts ids chunks c.cache_map id v writing)
          λ m (consistent, entry, others, readers). returns (
            refl,
            record {
              kept = kept;
              zones = back;
              map = record { consistent = consistent; others = others; readers = readers };
              entry = entry;
              policy = refl;
              counted = refl;
              sizes = record { chunk = refl; zone = refl; io = refl };
            },
          )

  -- With memory for a chunk of at least four bytes, a location that was handed out at a place that holds
  -- no data, an id below 2^31 that is being written, and a command that finishes a zone without an error,
  -- the rest of zn_cache_get returns. Either it gives the buffer with the id, which then is on the disk at
  -- the location that the map has for the id; or, where the write fails, it gives NULL, and the id has
  -- neither a location nor a writer. The zone is given back either way, and no byte outside the chunk and
  -- no entry of another id is changed.
  pub fill_correct :
      (random_buffer : ℕ → ℕ)
      → env.has_memory ≡ true
      → 4 ≤ c.chunk_sz
      → 0 < c.io_size
      → location_pointer c l + c.chunk_sz ≤ u64
      → Finishes (env.zbd 0) c.zone_state
      → id < 2147483648
      → assoc (c.cache_map.data_map l.zone) l.chunk_offset ≡ none
      → IsLinked c.eviction_policy.lru
      → IsFresh c.eviction_policy.lru (env.fresh c.eviction_policy.lru.queue) l.zone
      → IsNewZone c.eviction_policy l write
      → l.chunk_offset < c.eviction_policy.zone_max_chunks
      → c.eviction_policy.zone_max_chunks < u32
      → Returns
          (λ (data', c'). Filled device c id l random_buffer data' c')
          (fill asserts q ids chunks links tables device low_thresh_zones env c id random_buffer
            (some l))
  unfolding fill gen_write_buffer publish
  fill_correct random_buffer memory long progress range works small vacant linked free new inside
        fits =
      let four : leb 4 c.chunk_sz ≡ true = ground (arith, long) in
      rw (memory, four)
        (Returns-bind
          (write_out_correct device asserts c.disk c.chunk_sz (with_id id random_buffer) c.io_size
            (location_pointer c l) progress range)
          λ (done, d) (kept, stored, _). elim (Bool-cases done) [
            | inl written ↦ rw written (
                Returns-map
                  (publish-Stored d (with_id id random_buffer) (stored written) kept works small
                    vacant linked free new inside fits)
                  λ r p. inl p)
            | inr failed ↦ rw failed (Returns-map (undo-Undone d kept) λ r p. inr p)
          ])
