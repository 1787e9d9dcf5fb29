-- ===== src/Eviction/Chunk/Calls.antt =====
-- src/eviction/chunk.c: zn_policy_chunk_evict, with the garbage collection.
use zncache.Base.{
  ℕ, zero, suc, ◌+◌, ◌-◌, ◌%◌, Bool, true, false, not, ◌||◌, Option, none, some, List, ltb, ◌==◌,
  if◌then◌else◌, u32, update, Run, ok, overrun, out_of_fuel, check, ◌>>=◌, ◌>>◌,
}
use zncache.Glib.{Queues, Links, Tables}
use zncache.MinHeap.{extract_min, update_by_entry}
use zncache.Zones.{ZnPair, chunk_pointer}
use zncache.Zones.Calls.{
  success, get_active_zone, get_num_free_zones, mark_chunk_invalid, zone_evict,
}
use zncache.CacheMap.{ZoneMapResult, insert, clear_chunk, clear_zone}
use zncache.Eviction.Lru.{forget}
use zncache.Cache.Disk.{Device, read_from_disk, write_out}
use zncache.Eviction.Chunk.{
  ChunkPolicy, ChunkCache, Thresholds, Collection, chunk_at, pool_chunk, release,
}

module _ {D : Type 0} (asserts : Bool) (q : Queues) (ids : Tables ZoneMapResult) (chunks : Tables ℕ)
    (links : Links) (tables : Tables (Option ℕ)) (device : Device D) (thresholds : Thresholds) where
  -- The rest of a round of the loop of zn_policy_chunk_evict, with the chunk that was popped.
  unfoldable pub evict_popped : ChunkCache D → Option ℕ × List (ℕ × ℕ) → Run (ChunkCache D)
  evict_popped c (none, rest) = overrun
  evict_popped c (some a, rest) =
      let p = c.policy in
      let zp = pool_chunk p a in
      let zpc = release (p.zone_pool zp.zone) zp.chunk_offset in
      do
        (_, heap) ← update_by_entry p.invalid_pqueue zpc.pqueue_entry zpc.chunks_in_use
        m ← clear_chunk asserts ids chunks c.cache_map zp
        ok (record c {
          policy = record p {
            lru = forget links tables rest p.lru.nodes a;
            invalid_pqueue = heap;
            zone_pool = update p.zone_pool zp.zone zpc;
          };
          zone_state = mark_chunk_invalid asserts q c.zone_state zp;
          cache_map = m;
        })

  -- The loop of zn_policy_chunk_evict, the number of rounds first.
  unfoldable pub evict_chunks : ℕ → ChunkCache D → Run (ChunkCache D)
  evict_chunks zero c = ok c
  evict_chunks (suc n) c =
      evict_popped c (links.pop_head c.policy.lru.queue) >>= λ c'. evict_chunks n c'

  -- The pool and the queue after the garbage collection moved a chunk to a location.
  unfoldable pub moved : ChunkPolicy → ℕ → ℕ → ℕ → ZnPair → ChunkPolicy
  moved p fresh old i location =
      let pool = update p.zone_pool old (release (p.zone_pool old) i) in
      let zpc = pool location.zone in
      let zp = record ((pool old).chunks i) { in_use = true } in
      let a = chunk_at p location.zone location.chunk_offset in
      record p {
        lru = record (p.lru) { queue = links.push_tail p.lru.queue fresh a };
        zone_pool = update pool location.zone (record zpc {
          chunks = update zpc.chunks location.chunk_offset zp;
          chunks_in_use = (zpc.chunks_in_use + 1) % u32;
        });
      }

  -- A pointer to data that must not be NULL.
  abbrev pub given : Option (ℕ → ℕ) → Run (ℕ → ℕ)
  given none = check asserts false >> overrun
  given (some bytes) = ok bytes

  -- The rest of a round of the garbage collection of a zone, with the location for the chunk.
  unfoldable pub move_chunk : Collection → ChunkCache D → ℕ → ℕ → ZnPair → Run (ChunkCache D)
  unfolding moved
  move_chunk env c old i location =
      let zp = (c.policy.zone_pool old).chunks i in
      let from = chunk_pointer c.zone_size c.chunk_sz zp.chunk_offset zp.zone in
      let to = chunk_pointer c.zone_size c.chunk_sz location.chunk_offset location.zone in
      do
        (loaded, d) ← read_from_disk device env.read_memory c.disk c.chunk_sz c.io_size from
        bytes ← given loaded
        (done, d') ← write_out device asserts d c.chunk_sz bytes c.io_size to
        check asserts done
        m ← insert asserts ids chunks c.cache_map zp.id location
        ok (record c {
          disk = d';
          cache_map = m;
          policy = moved c.policy (env.fresh c.policy.lru.queue) old i location;
        })

  -- A round of the garbage collection of a zone for a chunk in use. Without a location the code goes on with
  -- one that is not initialised.
  unfoldable pub collect_chunk : Collection → ℕ → ℕ → ℕ → ChunkCache D → Run (ChunkCache D)
  unfolding move_chunk
  collect_chunk env round old i c =
      get_active_zone asserts q (env.zbd round i) c.zone_state >>= λ (answer, z).
      let c' = record c { zone_state = z } in
      elim answer [
        | success location ↦ move_chunk env c' old i location
        | _ ↦ check asserts false >> overrun
      ]

  -- The loop over the chunks of a zone, the number of rounds first.
  unfoldable pub collect_chunks : ℕ → ℕ → Collection → ℕ → ℕ → ChunkCache D → Run (ChunkCache D)
  collect_chunks zero i env round old c = ok c
  collect_chunks (suc n) i env round old c =
      (if ((c.policy.zone_pool old).chunks i).in_use then collect_chunk env round old i c else ok c)
      >>= λ c'. collect_chunks n (i + 1) env round old c'

  -- A round of the loop of zn_policy_chunk_gc, with the zone that left the heap.
  unfoldable pub collect_zone : Collection → ℕ → ℕ → ChunkCache D → Run (ChunkCache D)
  unfolding collect_chunks
  collect_zone env round old c = do
    c' ← collect_chunks c.policy.max_zone_chunks 0 env round old c
    let zone = (c'.policy.zone_pool old).zone_id
    m ← clear_zone asserts ids chunks c'.cache_map zone
    (_, z) ← zone_evict asserts q (env.zbd round c.policy.max_zone_chunks) c'.zone_state zone
    ok (record c' { cache_map = m; zone_state = z })

  -- The loop of zn_policy_chunk_gc.
  unfoldable pub collect : ℕ → ℕ → Collection → ChunkCache D → Run (ChunkCache D)
  collect zero round env c = out_of_fuel
  collect (suc fuel) round env c =
      if ltb (get_num_free_zones asserts q c.zone_state) thresholds.low_zones
      then (extract_min c.policy.invalid_pqueue >>= λ (entry, heap).
          let c' = record c { policy = record (c.policy) { invalid_pqueue = heap } } in
          elim entry [
            | none ↦ ok c'
            | some e ↦ collect_zone env round (heap.memory e).payload c' >>= λ c''.
                collect fuel (round + 1) env c''
          ])
      else ok c

  -- `zn_policy_chunk_gc`
  unfoldable pub gc : ℕ → Collection → ChunkCache D → Run (ChunkCache D)
  gc fuel env c =
      if ltb thresholds.high_zones (get_num_free_zones asserts q c.zone_state)
      then ok c
      else collect fuel 0 env c

  -- `zn_policy_chunk_evict`, with the result of the call; `locked_by_us` tells whether the mutex was free.
  unfoldable pub evict_lru : Bool → ℕ → Collection → ChunkCache D → Run (ℕ × ChunkCache D)
  evict_lru locked_by_us fuel env c =
      let in_lru = links.get_length c.policy.lru.queue in
      let free_chunks = (c.policy.total_chunks + u32 - in_lru) % u32 in
      let nr_evict = (thresholds.low_chunks + u32 - free_chunks) % u32 in
      if not locked_by_us
      then ok (u32 - 1, c)
      else (if in_lru == 0 || ltb thresholds.high_chunks free_chunks
          then ok (1, c)
          else (evict_chunks nr_evict c >>= λ c'. gc fuel env c' >>= λ c''. ok (0, c'')))
