-- ===== src/Eviction/Chunk/Evict/Whole.antt =====
-- src/eviction/chunk.c: zn_policy_chunk_evict where there are zones enough to do without a garbage collection.
use zncache.Base.{
  ℕ, zero, suc, ◌+◌, ◌-◌, ◌%◌, ◌≤◌, ◌<◌, ◌≡◌, refl, ap, ◌∙◌, subst, arith, ◌⊎◌, inl, inr, Bool,
  true, false, Option, some, List, [], ◌∷◌, List-cases, length, length-append, ltb, ◌==◌, ◌||◌,
  if◌then◌else◌, u32, eq_or_ne, ok, Returns, returns, Returns-map, Returns-bind,
}
use zncache.Glib.{Queues, Links, Tables}
use zncache.Zones.Calls.{get_num_free_zones}
use zncache.CacheMap.{ZoneMapResult}
use zncache.CacheMap.Clear.{clear_chunk_correct}
use zncache.Cache.Disk.{Device}
use zncache.Eviction.Lru.{forget}
use zncache.Eviction.Lru.Queue.{elements}
use zncache.Eviction.Lru.Moves.{IsLinked, forget_correct}
use zncache.Eviction.Chunk.{ChunkCache, Thresholds, Collection, pool_chunk}
use zncache.Eviction.Chunk.Calls.{evict_popped, evict_chunks, gc, evict_lru}
use zncache.Eviction.Chunk.Invariant.{order_of}
use zncache.Eviction.Chunk.Release.{update-Rekeyed}
use zncache.Eviction.Chunk.Evict.{
  Managed, EvictsChunks, EvictsChunks-nil, EvictsChunks-cons, head-chunk,
}
use zncache.Eviction.Chunk.Evict.One.{after-Managed, after-EvictsChunks}

length-order : (q : List (ℕ × ℕ)) → length (elements q) ≡ length q
length-order [] = refl
length-order ((n, x) ∷ q) = omega (arith, length-order q)

module _ {D : Type 0} (asserts : Bool) (q : Queues) (ids : Tables ZoneMapResult) (chunks : Tables ℕ)
    (links : Links) (tables : Tables (Option ℕ)) (device : Device D) (thresholds : Thresholds) where
  pub evict_first :
      (c : ChunkCache D) (n a : ℕ) (rest : List (ℕ × ℕ))
      → Managed c
      → c.policy.lru.queue ≡ (n, a) ∷ rest
      → Returns
          (λ c'. Managed c' × EvictsChunks c (a ∷ []) c')
          (evict_popped asserts q ids chunks links tables device thresholds c (some a, rest))
  unfolding evict_popped
  evict_first c n a rest m e =
      let zp = pool_chunk c.policy a in
      let order : order_of c.policy ≡ a ∷ elements rest = ap elements e in
      let f = head-chunk c a (elements rest) m order in
      let (id, data_there) = m.mapped zp.zone zp.chunk_offset f.zone_inside f.chunk_inside f.was in
      let leaves = forget_correct tables links n a rest c.policy.lru.nodes (
        subst (λ l. IsLinked (record { queue = l; nodes = c.policy.lru.nodes })) e
          m.counted.linked) in
      Returns-bind (update-Rekeyed c.zone_state.num_zones c.policy zp.zone m.counted f.zone_inside)
        λ (done, heap) r.
          Returns-bind
            (clear_chunk_correct asserts ids chunks c.cache_map zp id m.consistent data_there)
            λ map (v, cleared). returns (
              after-Managed asserts q c m a (elements rest) order
                  (forget links tables rest c.policy.lru.nodes a) leaves heap r map v cleared,
              after-EvictsChunks asserts q c m a (elements rest) order
                  (forget links tables rest c.policy.lru.nodes a) leaves heap r map v cleared,
            )

  -- The loop of zn_policy_chunk_evict evicts as many chunks as it has rounds, where there are so many.
  evict_chunks-Evicts :
      (n : ℕ) (c : ChunkCache D)
      → Managed c
      → n ≤ length (order_of c.policy)
      → Returns
          (λ c'. Managed c' × (gone : List ℕ) × EvictsChunks c gone c' × (length gone ≡ n))
          (evict_chunks asserts q ids chunks links tables device thresholds n c)
  unfolding evict_chunks
  evict_chunks-Evicts zero c m enough = returns (m, [], EvictsChunks-nil c, refl)
  evict_chunks-Evicts (suc n) c m enough = elim (List-cases c.policy.lru.queue) [
    | inl nothing ↦ absurd (omega (arith, enough, ap (λ l. length (elements l)) nothing))
    | inr ((node, a), rest, e) ↦
        let popped : links.pop_head c.policy.lru.queue ≡ (some a, rest) =
          ap links.pop_head e ∙ links.pop_head-cons node a rest in
        rw popped (
          Returns-bind (evict_first c node a rest m e) λ c' (m', one).
            Returns-map (evict_chunks-Evicts n c' m' (omega (arith, enough, ap length one.order)))
              λ c'' (m'', gone, ev, count).
                (m'', a ∷ gone, EvictsChunks-cons c c' c'' a gone one ev, omega (arith, count)))
  ]

  module _ (fuel : ℕ) (env : Collection) (c : ChunkCache D) (m : Managed c)
      (fits : c.policy.total_chunks < u32)
      (within : length (order_of c.policy) ≤ c.policy.total_chunks) where
    abbrev pub in_lru : ℕ
    in_lru = length (order_of c.policy)

    pub counted : links.get_length c.policy.lru.queue ≡ in_lru
    counted = omega (
      arith,
      links.get_length_lem c.policy.lru.queue,
      length-order c.policy.lru.queue,
      fits,
      within,
    )

    pub free_chunks :
        (c.policy.total_chunks + u32 - links.get_length c.policy.lru.queue) % u32
        ≡ c.policy.total_chunks - in_lru
    free_chunks = elim (eq_or_ne in_lru 0) [
      | inl none_used ↦ omega (arith, counted, fits)
      | inr some_used ↦ omega (arith, counted, fits, within)
    ]

    -- zn_policy_chunk_evict of a cache whose parts are in order, where no chunk is in use or more are free than
    -- the high threshold, gives 1 and changes nothing; where another thread holds the mutex it gives -1.
    pub evict_lru_idle :
        (in_lru ≡ 0) ⊎ (thresholds.high_chunks < c.policy.total_chunks - in_lru)
        → (locked : Bool)
        → evict_lru asserts q ids chunks links tables device thresholds locked fuel env c
          ≡ ok (if locked then 1 else u32 - 1, c)
    unfolding evict_lru
    evict_lru_idle why false = refl
    evict_lru_idle why true =
        let test : (links.get_length c.policy.lru.queue == 0
              || ltb thresholds.high_chunks
                  ((c.policy.total_chunks + u32 - links.get_length c.policy.lru.queue) % u32))
            ≡ true =
          rw (free_chunks, counted) (ground (arith, why)) in
        rw test refl

    -- zn_policy_chunk_evict, with its mutex free, of a cache whose parts are in order, with chunks in use and
    -- not more free than the high threshold, which is below the low one, where the disk has at least as many
    -- chunks as the low threshold and as are in use, and below 2^32, and zones enough, below 2^32, are free to
    -- do without a garbage collection, gives 0. It has evicted the least recently used chunks, and so many that as many are free as
    -- the low threshold: their data are out of the map, and all other data are where they were. The parts
    -- are in order as before.
    pub evict_lru_correct :
        0 < in_lru
        → c.policy.total_chunks - in_lru ≤ thresholds.high_chunks
        → thresholds.high_chunks < thresholds.low_chunks
        → thresholds.low_chunks ≤ c.policy.total_chunks
        → length c.zone_state.free < u32
        → thresholds.high_zones < length c.zone_state.free
        → Returns
            (λ (ret, c').
              (ret ≡ 0)
              × Managed c'
              × (gone : List ℕ) × EvictsChunks c gone c'
              × (c'.policy.total_chunks - length (order_of c'.policy) ≡ thresholds.low_chunks))
            (evict_lru asserts q ids chunks links tables device thresholds true fuel env c)
    unfolding evict_lru gc get_num_free_zones
    evict_lru_correct some_used few_free apart low_fits free_fits zones_free =
        let test : (links.get_length c.policy.lru.queue == 0
              || ltb thresholds.high_chunks
                  ((c.policy.total_chunks + u32 - links.get_length c.policy.lru.queue) % u32))
            ≡ false =
          rw (free_chunks, counted) (ground (arith, some_used, few_free)) in
        let rounds : (thresholds.low_chunks + u32 - (c.policy.total_chunks - in_lru)) % u32
            ≡ thresholds.low_chunks - (c.policy.total_chunks - in_lru) =
          omega (arith, few_free, apart, low_fits, fits, within) in
        rw (test, free_chunks, rounds)
          (Returns-bind
            (evict_chunks-Evicts (thresholds.low_chunks - (c.policy.total_chunks - in_lru)) c m
              (omega (arith, low_fits, within)))
            λ c' (m', gone, ev, count).
              let free_zones : ltb thresholds.high_zones (q.get_length c'.zone_state.free) ≡ true =
                ground (
                  arith,
                  q.get_length_lem c'.zone_state.free,
                  ap length ev.free_kept,
                  zones_free,
                  free_fits,
                ) in
              let orders = ap length ev.order ∙ length-append gone (order_of c'.policy) in
              rw free_zones (
                returns (
                  refl,
                  m',
                  gone,
                  ev,
                  omega (arith, orders, count, ev.total, low_fits, few_free, apart, within, fits),
                )))
