-- ===== src/Cache/Get/RoundTrip.antt =====
-- src/cache.c: a chunk that zn_cache_get has filled, asked for again.
use zncache.Base.{
  ℕ, ◌+◌, ◌≤◌, ◌<◌, ◌≡◌, refl, ap, ◌∙◌, Bool, true, Option, some, u32, u64, ok, Returns,
  Returns-map,
}
use zncache.Glib.{Queues, Links, Tables}
use zncache.Zones.{ZnPair}
use zncache.CacheMap.{ZoneMapResult}
use zncache.Eviction.Lru.Moves.{IsFresh}
use zncache.Cache.Disk.{Device}
use zncache.Cache.Buffer.{with_id, validate_read}
use zncache.Cache.Buffer.Valid.{same-validates}
use zncache.Cache.Get.{Cache, Surroundings, location_pointer, get}
use zncache.Cache.Get.Hit.{get_hit_correct}
use zncache.Cache.Get.Fill.{Stored}

module _ {D : Type 0} (asserts : Bool) (q : Queues) (ids : Tables ZoneMapResult) (chunks : Tables ℕ)
    (links : Links) (tables : Tables (Option ℕ)) (device : Device D) (low_thresh_zones : ℕ)
    (env : Surroundings) where
  -- After zn_cache_get has stored a chunk for an id, the next zn_cache_get of the id, with memory at hand,
  -- returns, and the data it returns, if any, pass zn_validate_read for the id.
  pub get-Stored_validates :
      (fuel : ℕ) (c c' : Cache D) (id : ℕ) (l : ZnPair) (buffer random_buffer memory : ℕ → ℕ)
      → Stored device c id l (with_id id buffer) c'
      → 4 ≤ c.chunk_sz
      → c.chunk_sz < u32
      → id < u32
      → c'.cache_map.active_readers l.zone < u32
      → env.read_memory ≡ some memory
      → 0 < c.io_size
      → location_pointer c l + c.chunk_sz ≤ u64
      → IsFresh c'.eviction_policy.lru (env.fresh c'.eviction_policy.lru.queue) l.zone
      → l.chunk_offset < c.eviction_policy.zone_max_chunks
      → c.eviction_policy.zone_max_chunks < u32
      → Returns
          (λ (data', c'').
            (bytes : ℕ → ℕ)
            → data' ≡ some bytes
            → validate_read c.chunk_sz bytes id buffer ≡ ok true)
          (get asserts q ids chunks links tables device low_thresh_zones env fuel c' id
            random_buffer)
  get-Stored_validates fuel c c' id l buffer random_buffer memory s long fits small few alloc
        progress range free inside most =
      let there : location_pointer c' l ≡ location_pointer c l =
        rw (s.sizes.chunk, s.sizes.zone) refl in
      Returns-map
        (get_hit_correct asserts q ids chunks links tables device low_thresh_zones env fuel c' id l
          random_buffer memory s.map.consistent s.place few alloc (rw (s.sizes.io) progress)
          (rw (s.sizes.chunk, s.sizes.zone) range) s.policy.linked free
          (rw (s.policy.chunks) inside) (rw (s.policy.chunks) most))
        λ (data', c'') h bytes e.
          same-validates c.chunk_sz bytes id buffer long fits small λ i here.
            h.loaded bytes e i (rw (s.sizes.chunk) here)
            ∙ (ap (λ wp. device.byte c'.disk (wp + i)) there ∙ s.on_disk i here)
