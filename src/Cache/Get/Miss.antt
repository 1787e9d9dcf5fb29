-- ===== src/Cache/Get/Miss.antt =====
-- src/cache.c: the branch of zn_cache_get for an id that is not on the disk, from the claim of a chunk to the end.
use zncache.Base.{
  ℕ, ◌+◌, ◌≤◌, ◌<◌, ◌≡◌, refl, sym, ap, ◌∙◌, Bool, true, Option, none, some, List, u32, u64,
  Returns, Returns-bind, Returns-map,
}
use zncache.Glib.{Queues, Links, Tables, assoc}
use zncache.Zones.{ZnPair, ZoneStateManager}
use zncache.Zones.Active.{Opens}
use zncache.Zones.Return.{Finishes}
use zncache.CacheMap.{ZoneMapResult, result_cond}
use zncache.CacheMap.Invariant.{location_in, type_in, type_of}
use zncache.CacheMap.Fill.{entry_of}
use zncache.Cache.Disk.{Device}
use zncache.Cache.Get.{Cache, Surroundings, location_pointer, get_missing}
use zncache.Cache.Get.Ready.{Ready}
use zncache.Cache.Get.Fill.{Filled, fill_correct}
use zncache.Cache.Get.Claim.{claim_loop_correct}
use zncache.Cache.Get.Location.{Claims}

-- An id that is being written has no location.
writing-nowhere : (o : Option ZoneMapResult) → type_in o ≡ some result_cond → location_in o ≡ none
writing-nowhere o e = let (l, at) = entry_of o result_cond e in rw at refl

-- What a miss leaves: a chunk was claimed, after evictions where they were needed, and filled.
abbrev pub MissLeaves :
    {D : Type 0} → Device D → Cache D → ℕ → (ℕ → ℕ) → Option (ℕ → ℕ) → Cache D → Type 0
MissLeaves {D} device c id buffer data' c' =
    (l : ZnPair) × (c1 : Cache D) × Claims c l c1 × Filled device c1 id l buffer data' c'

module _ {D : Type 0} (asserts : Bool) (q : Queues) (ids : Tables ZoneMapResult) (chunks : Tables ℕ)
    (links : Links) (tables : Tables (Option ℕ)) (device : Device D) (low_thresh_zones : ℕ)
    (env : Surroundings) (unlocked : (k : ℕ) → env.is_unlocked k ≡ true)
    (resets : (k wp length : ℕ) → (env.zbd k).reset_zones wp length ≡ 0)
    (opens : (k : ℕ) (s : ZoneStateManager) → Opens (env.zbd k) s)
    (finishes : (k : ℕ) (s : ZoneStateManager) → Finishes (env.zbd k) s)
    (fresh : (queue : List (ℕ × ℕ)) → assoc queue (env.fresh queue) ≡ none) where
  pub get_missing_correct :
      (fuel : ℕ) (c : Cache D) (id : ℕ) (random_buffer : ℕ → ℕ)
      → 1 < fuel
      → Ready c
      → c.zone_state.writes_occurring ≡ 0
      → 0 < c.zone_state.max_nr_active_zones
      → 0 < c.zone_state.num_zones
      → 0 < low_thresh_zones
      → low_thresh_zones < u32
      → type_of c.cache_map id ≡ some result_cond
      → id < 2147483648
      → env.has_memory ≡ true
      → 4 ≤ c.chunk_sz
      → 0 < c.io_size
      → c.eviction_policy.zone_max_chunks ≡ c.zone_state.max_zone_chunks
      → ((l : ZnPair)
          → l.zone < c.zone_state.num_zones
          → l.chunk_offset < c.zone_state.max_zone_chunks
          → location_pointer c l + c.chunk_sz ≤ u64)
      → Returns
          (λ (data', c'). MissLeaves device c id random_buffer data' c')
          (get_missing asserts q ids chunks links tables device low_thresh_zones env fuel c id
            random_buffer)
  unfolding get_missing
  get_missing_correct fuel c id random_buffer enough r idle limit some_zone low most writing small
        memory long progress agree range =
      Returns-bind
        (claim_loop_correct asserts q ids chunks links tables device low_thresh_zones env unlocked
          resets opens fuel 0 c enough r idle limit some_zone low most)
        λ (claimed, c1) (l, got, m).
          let nowhere = writing-nowhere (assoc c.cache_map.zone_map id) writing in
          let still : type_of c1.cache_map id ≡ some result_cond =
            ap type_in (m.entries id nowhere) ∙ writing in
          let below : l.chunk_offset < c1.zone_state.max_zone_chunks =
            rw (← m.out.offset) (m.valid.offsets l.zone m.out.inside) in
          let same : c1.eviction_policy.zone_max_chunks ≡ c1.zone_state.max_zone_chunks =
            m.shape.in_policy ∙ (agree ∙ sym m.shape.in_zones) in
          let inside : l.chunk_offset < c1.eviction_policy.zone_max_chunks = rw same below in
          let fits : c1.eviction_policy.zone_max_chunks < u32 = rw same (m.valid.chunks_fit) in
          let place : location_pointer c1 l + c1.chunk_sz ≤ u64 =
            rw (m.shape.chunk, m.shape.zone)
              (range l (rw (← m.shape.number) (m.out.inside)) (rw (← m.shape.in_zones) below)) in
          rw got (
            Returns-map
              (fill_correct asserts q ids chunks links tables device low_thresh_zones env c1 id l
                m.valid m.out m.consistent still random_buffer memory (rw (m.shape.chunk) long)
                (rw (m.shape.io) progress) place (finishes 0 c1.zone_state) small m.vacant m.linked
                (λ y e. cc (fresh c1.eviction_policy.lru.queue)) (λ _. m.unlisted) inside fits)
              λ v filled. (l, c1, m, filled))
