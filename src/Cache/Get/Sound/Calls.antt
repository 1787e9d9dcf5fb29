-- ===== src/Cache/Get/Sound/Calls.antt =====
-- src/cache.c: zn_cache_get on the whole cache, whether the id is on the disk or not.
use zncache.Base.{
  ℕ, ◌+◌, ◌≤◌, ◌<◌, ◌≡◌, ◌≢◌, refl, sym, ap, ◌∙◌, arith, ◌⊎◌, inl, inr, Bool, true, Option, none,
  some, List, ok, u32, u64, eq_or_ne, Returns, Returns-value, Returns-map,
}
use zncache.Glib.{Queues, Links, Tables, assoc}
use zncache.Zones.{ZnPair, ZoneStateManager}
use zncache.Zones.Active.{Opens}
use zncache.Zones.Return.{Finishes}
use zncache.CacheMap.{CacheMap, Find, located, waits, writes, ZoneMapResult, result_cond, find}
use zncache.CacheMap.Invariant.{location_in, type_in, location_of, type_of, IsConsistent}
use zncache.CacheMap.Clear.{entry_at}
use zncache.CacheMap.Lookup.{Outcome, find_correct}
use zncache.Cache.Disk.{Device}
use zncache.Cache.Buffer.{validate_read}
use zncache.Cache.Get.{Cache, Surroundings, location_pointer, get}
use zncache.Cache.Get.Hit.{get_hit_correct}
use zncache.Cache.Get.Miss.{get_missing_correct}
use zncache.Cache.Get.Sound.{Sound, Sizes}
use zncache.Cache.Get.Sound.Places.{chunk_pointer_flat}
use zncache.Cache.Get.Sound.Hit.{hit-Sound, hit-validates}
use zncache.Cache.Get.Sound.Writing.{Writing}
use zncache.Cache.Get.Sound.Miss.{miss-Sound}

-- A call that returned: the cache is sound, its chunks have their size, and data that were given pass the test
-- and are on the disk.
pub record Served {D : Type 0} (device : Device D) (buffer : ℕ → ℕ) (c : Cache D) (id : ℕ)
    (data' : Option (ℕ → ℕ)) (c' : Cache D) : Type 0 where
  pub sound : Sound device buffer c'
  pub chunk : c'.chunk_sz ≡ c.chunk_sz
  pub valid :
      (bytes : ℕ → ℕ)
      → data' ≡ some bytes
      → (validate_read c.chunk_sz bytes id buffer ≡ ok true)
        × ((l : ZnPair) × (location_of c'.cache_map id ≡ some l))

-- A place on the disk ends within 64 bits.
place_fits :
    {D : Type 0} (c : Cache D) (l : ZnPair)
    → Sizes c
    → l.zone < c.zone_state.num_zones
    → l.chunk_offset < c.zone_state.max_zone_chunks
    → location_pointer c l + c.chunk_sz ≤ u64
place_fits c l s inside below =
    let (at, fits) =
      chunk_pointer_flat c.zone_size c.chunk_sz c.zone_state.num_zones c.zone_state.max_zone_chunks
        s.chunks_fit s.zones_fit l.chunk_offset l.zone (omega (arith, s.long)) below inside in
    rw at fits

-- What a lookup of an id finds in a sound cache: its place, or nobody who writes it.
Outcome-cases :
    (m m' : CacheMap) (id : ℕ) (f : Find)
    → type_of m id ≢ some result_cond
    → Outcome m id f m'
    → ((l : ZnPair) × (location_of m id ≡ some l)) ⊎ ((f ≡ writes) × Outcome m id writes m')
Outcome-cases m m' id (located l) idle o = inl (l, o.0)
Outcome-cases m m' id waits idle o = absurd (idle (o.0))
Outcome-cases m m' id writes idle o = inr (refl, o)

module _ {D : Type 0} (device : Device D) (buffer : ℕ → ℕ) (c : Cache D) (id : ℕ) (m' : CacheMap)
    (s : Sound device buffer c) (v : IsConsistent m') (o : Outcome c.cache_map id writes m') where
  other-location :
      (j : ℕ) (l : ZnPair) → location_of m' j ≡ some l → location_of c.cache_map j ≡ some l
  other-location j l at = elim (eq_or_ne j id) [
    | inl same ↦
        let cond : type_of m' j ≡ some result_cond = rw same (o.2) in
        cc (ap type_in (entry_at (assoc m'.zone_map j) l at))
    | inr ne ↦ sym (ap location_in (o.3 j ne)) ∙ at
  ]

  -- The cache after the lookup.
  found-Writing : Writing device buffer id (record c { cache_map = m' })
  found-Writing = record {
    ready = record {
      consistent = v;
      valid = s.ready.valid;
      linked = s.ready.linked;
      all_full = s.ready.all_full;
      queued = s.ready.queued;
      placed = λ j l at. s.ready.placed j l (other-location j l at);
      idle = λ z. rw (o.4) (s.ready.idle z);
      room = s.ready.room;
    };
    idle = s.idle;
    no_reader = λ z. rw (o.4) (s.no_reader z);
    writing = o.2;
    no_other = λ j ne cond. s.no_writer j (sym (ap type_in (o.3 j ne)) ∙ cond);
    sizes = record {
      some_zone = s.sizes.some_zone;
      some_active = s.sizes.some_active;
      agree = s.sizes.agree;
      long = s.sizes.long;
      short = s.sizes.short;
      progress = s.sizes.progress;
      chunks_fit = s.sizes.chunks_fit;
      zones_fit = s.sizes.zones_fit;
    };
    held = λ j l at.
        let h = s.held j l (other-location j l at) in
        record { zone_inside = h.zone_inside; chunk_inside = h.chunk_inside; bytes = h.bytes };
  }

-- Surroundings in which every call for help succeeds: the policy is unlocked, the zone commands work, a link gets
-- an address that is not in use, and there is memory.
pub record Favourable (env : Surroundings) : Type 0 where
  pub unlocked : (k : ℕ) → env.is_unlocked k ≡ true
  pub resets : (k wp length : ℕ) → (env.zbd k).reset_zones wp length ≡ 0
  pub opens : (k : ℕ) (s : ZoneStateManager) → Opens (env.zbd k) s
  pub finishes : (k : ℕ) (s : ZoneStateManager) → Finishes (env.zbd k) s
  pub fresh : (queue : List (ℕ × ℕ)) → assoc queue (env.fresh queue) ≡ none
  pub memory : ℕ → ℕ
  pub can_read : env.read_memory ≡ some memory
  pub can_write : env.has_memory ≡ true

module _ {D : Type 0} (asserts : Bool) (q : Queues) (ids : Tables ZoneMapResult) (chunks : Tables ℕ)
    (links : Links) (tables : Tables (Option ℕ)) (device : Device D) (low_thresh_zones : ℕ)
    (low : 0 < low_thresh_zones) (most : low_thresh_zones < u32) (buffer : ℕ → ℕ)
    (env : Surroundings) (works : Favourable env) where
  get-located :
      (fuel : ℕ) (c : Cache D) (id : ℕ) (l : ZnPair)
      → Sound device buffer c
      → id < 2147483648
      → location_of c.cache_map id ≡ some l
      → Returns
          (λ (data', c'). Served device buffer c id data' c')
          (get asserts q ids chunks links tables device low_thresh_zones env fuel c id buffer)
  get-located fuel c id l s small at =
      let h = s.held id l at in
      Returns-map
        (get_hit_correct asserts q ids chunks links tables device low_thresh_zones env fuel c id l
          buffer works.memory s.ready.consistent at (rw (s.no_reader l.zone) (omega arith))
          works.can_read s.sizes.progress (place_fits c l s.sizes h.zone_inside h.chunk_inside)
          s.ready.linked (λ y e. cc (works.fresh c.eviction_policy.lru.queue))
          (rw (s.sizes.agree) h.chunk_inside) (rw (s.sizes.agree) s.ready.valid.chunks_fit))
        λ (data', c') hit. record {
          sound = hit-Sound device buffer c l data' c' s hit;
          chunk = hit.chunk;
          valid = λ bytes e. (
            hit-validates device buffer c l data' c' s hit id bytes at small e,
            (l, ap (λ t. location_in (assoc t id)) hit.ids_kept ∙ at),
          );
        }

  get-unlocated :
      (fuel : ℕ) (c : Cache D) (id : ℕ) (m' : CacheMap)
      → 1 < fuel
      → Sound device buffer c
      → id < 2147483648
      → IsConsistent m'
      → find asserts ids chunks c.cache_map id ≡ ok (writes, m')
      → Outcome c.cache_map id writes m'
      → Returns
          (λ (data', c'). Served device buffer c id data' c')
          (get asserts q ids chunks links tables device low_thresh_zones env fuel c id buffer)
  unfolding get
  get-unlocated fuel c id m' enough s small v found o =
      let w = found-Writing device buffer c id m' s v o in
      let c1 = record c { cache_map = m' } in
      rw found (
        Returns-map
          (get_missing_correct asserts q ids chunks links tables device low_thresh_zones env
            works.unlocked works.resets works.opens works.finishes works.fresh fuel c1 id buffer
            enough w.ready w.idle s.sizes.some_active s.sizes.some_zone low most w.writing small
            works.can_write s.sizes.long s.sizes.progress s.sizes.agree
            (λ l inside below. place_fits c1 l w.sizes inside below))
          λ (data', c') (l, d, claims, filled).
            let (sound, chunk, valid) =
              miss-Sound device buffer id c1 l d w claims data' c' small filled in
            record { sound = sound; chunk = chunk; valid = valid })

  -- zn_cache_get of an id below 2^31, run by a thread alone on a sound cache in favourable surroundings,
  -- returns and leaves the cache sound. Data that it gives pass the test of
  -- zn_validate_read for the id, which then has a location.
  pub get-Sound :
      (fuel : ℕ) (c : Cache D) (id : ℕ)
      → 1 < fuel
      → Sound device buffer c
      → id < 2147483648
      → Returns
          (λ (data', c'). Served device buffer c id data' c')
          (get asserts q ids chunks links tables device low_thresh_zones env fuel c id buffer)
  get-Sound fuel c id enough s small =
      let ((f, m'), e, (v, outcome)) =
        Returns-value (find_correct asserts ids chunks c.cache_map id s.ready.consistent) in
      elim (Outcome-cases c.cache_map m' id f (s.no_writer id) outcome) [
        | inl (l, at) ↦ get-located fuel c id l s small at
        | inr (is_writes, o) ↦
            get-unlocated fuel c id m' enough s small v (e ∙ ap (λ g. ok (g, m')) is_writes) o
      ]
