-- ===== src/Eviction/Chunk/Faults.antt =====
-- src/eviction/chunk.c: where the garbage collection and the eviction go wrong.
use zncache.Base.{
  ℕ, zero, suc, ◌+◌, ◌-◌, ◌%◌, ◌≤◌, ◌<◌, ◌≡◌, ◌≢◌, refl, ap, ◌∙◌, arith, inl, inr, Bool, true,
  false, Option, none, some, [], List-cases, length, ltb, ◌==◌, ◌||◌, u32, Run, ok, aborted,
  overrun, out_of_fuel, check, Returns-value, ◌>>=◌,
}
use zncache.Glib.{Queues, Links, Tables}
use zncache.Zones.{ZnPair, ZoneStateManager, chunk_pointer}
use zncache.Zones.Calls.{ActiveZone, success, retry, error, evict}
use zncache.CacheMap.{ZoneMapResult, result_cond, insert}
use zncache.CacheMap.Invariant.{type_of}
use zncache.CacheMap.Faults.{insert-idle_aborts}
use zncache.Cache.Disk.{Device, read_from_disk, write_out}
use zncache.Eviction.Chunk.{ChunkCache, Thresholds, Collection}
use zncache.Eviction.Chunk.Calls.{
  given, move_chunk, collect_chunk, evict_popped, evict_chunks, evict_lru,
}
use zncache.Eviction.Chunk.Invariant.{order_of}
use zncache.Eviction.Chunk.Evict.{Managed}
use zncache.Eviction.Chunk.Evict.Whole.{evict_first, free_chunks, counted}

never_bind :
    {A B : Type 0} (m : Run A) (f : A → Run B) (b : B) → ((a : A) → f a ≢ ok b) → (m >>= f) ≢ ok b
never_bind (ok a) f b never e = never a e
never_bind aborted f b never e = cc
never_bind overrun f b never e = cc
never_bind out_of_fuel f b never e = cc

aborted_bind : {A B : Type 0} (m : Run A) (f : A → Run B) (b : B) → m ≡ aborted → (m >>= f) ≢ ok b
aborted_bind (ok a) f b stops e = cc
aborted_bind aborted f b stops e = cc
aborted_bind overrun f b stops e = cc
aborted_bind out_of_fuel f b stops e = cc

module _ {D : Type 0} (q : Queues) (ids : Tables ZoneMapResult) (chunks : Tables ℕ) (links : Links)
    (tables : Tables (Option ℕ)) (device : Device D) (thresholds : Thresholds)
    (env : Collection) where
  move_chunk_never :
      (c c' : ChunkCache D) (old i : ℕ) (location : ZnPair)
      → type_of c.cache_map ((c.policy.zone_pool old).chunks i).id ≢ some result_cond
      → move_chunk true q ids chunks links tables device thresholds env c old i location ≢ ok c'
  unfolding move_chunk
  move_chunk_never c c' old i location idle =
      let zp = (c.policy.zone_pool old).chunks i in
      let from = chunk_pointer c.zone_size c.chunk_sz zp.chunk_offset zp.zone in
      let to = chunk_pointer c.zone_size c.chunk_sz location.chunk_offset location.zone in
      never_bind (read_from_disk device env.read_memory c.disk c.chunk_sz c.io_size from) _ c'
        λ (loaded, d).
          never_bind (given true q ids chunks links tables device thresholds loaded) _ c' λ bytes.
            never_bind (write_out device true d c.chunk_sz bytes c.io_size to) _ c' λ (done, d').
              never_bind (check true done) _ c' λ checked.
                aborted_bind (insert true ids chunks c.cache_map zp.id location) _ c'
                  (insert-idle_aborts ids chunks c.cache_map zp.id location idle)

  -- With assertions enabled the garbage collection never gets past a chunk in use whose id is not being
  -- written: whatever the disk and the zones answer, the round does not return.
  pub collect_chunk_never :
      (c c' : ChunkCache D) (round old i : ℕ)
      → type_of c.cache_map ((c.policy.zone_pool old).chunks i).id ≢ some result_cond
      → collect_chunk true q ids chunks links tables device thresholds env round old i c ≢ ok c'
  unfolding collect_chunk
  collect_chunk_never c c' round old i idle = never_bind _ _ c' answered
    where
      answered :
          (a : ActiveZone × ZoneStateManager)
          → (elim a.0 as (λ _. Run (ChunkCache D)) [
            | success location ↦
                move_chunk true q ids chunks links tables device thresholds env
                  (record c { zone_state = a.1 })
                  old
                  i
                  location
            | _ ↦ aborted
          ])
            ≢ ok c'
      answered (success location, z) =
          move_chunk_never (record c { zone_state = z }) c' old i location idle
      answered (retry, z) = λ e. cc
      answered (error, z) = λ e. cc
      answered (evict, z) = λ e. cc

module _ {D : Type 0} (asserts : Bool) (q : Queues) (ids : Tables ZoneMapResult) (chunks : Tables ℕ)
    (links : Links) (tables : Tables (Option ℕ)) (device : Device D) (thresholds : Thresholds) where
  popped_none :
      (c : ChunkCache D) (n : ℕ)
      → (evict_popped asserts q ids chunks links tables device thresholds c (none, []) >>= λ c'.
          evict_chunks asserts q ids chunks links tables device thresholds n c')
        ≡ overrun
  unfolding evict_popped
  popped_none c n = refl

  evict_chunks-overrun :
      (n : ℕ) (c : ChunkCache D)
      → Managed c
      → length (order_of c.policy) < n
      → evict_chunks asserts q ids chunks links tables device thresholds n c ≡ overrun
  unfolding evict_chunks
  evict_chunks-overrun zero c m more = absurd (omega (arith, more))
  evict_chunks-overrun (suc n) c m more = elim (List-cases c.policy.lru.queue) [
    | inl nothing ↦
        let popped : links.pop_head c.policy.lru.queue ≡ (none, []) =
          ap links.pop_head nothing ∙ links.pop_head-nil in
        rw popped (popped_none c n)
    | inr ((node, a), rest, e) ↦
        let popped : links.pop_head c.policy.lru.queue ≡ (some a, rest) =
          ap links.pop_head e ∙ links.pop_head-cons node a rest in
        let (c', at, (m', one)) =
          Returns-value
            (evict_first asserts q ids chunks links tables device thresholds c node a rest m e) in
        rw (popped, at) (evict_chunks-overrun n c' m' (omega (arith, more, ap length one.order)))
  ]

  -- zn_policy_chunk_evict on a disk with fewer chunks than the low threshold, with chunks in use and no more free
  -- than the high one, goes on until the queue is empty, and then follows a null pointer.
  pub evict_lru_small :
      (fuel : ℕ) (env : Collection) (c : ChunkCache D)
      → Managed c
      → c.policy.total_chunks < thresholds.low_chunks
      → thresholds.low_chunks < u32
      → length (order_of c.policy) ≤ c.policy.total_chunks
      → 0 < length (order_of c.policy)
      → c.policy.total_chunks - length (order_of c.policy) ≤ thresholds.high_chunks
      → evict_lru asserts q ids chunks links tables device thresholds true fuel env c ≡ overrun
  unfolding evict_lru
  evict_lru_small fuel env c m small low_fits within some_used few_free =
      let fits : c.policy.total_chunks < u32 = omega (arith, small, low_fits) in
      let free =
        free_chunks asserts q ids chunks links tables device thresholds fuel env c m fits within in
      let used =
        counted asserts q ids chunks links tables device thresholds fuel env c m fits within in
      let test : (links.get_length c.policy.lru.queue == 0
            || ltb thresholds.high_chunks
                ((c.policy.total_chunks + u32 - links.get_length c.policy.lru.queue) % u32))
          ≡ false =
        rw (free, used) (ground (arith, some_used, few_free)) in
      let rounds : (thresholds.low_chunks
              + u32
              - (c.policy.total_chunks - length (order_of c.policy)))
            % u32
          ≡ thresholds.low_chunks - (c.policy.total_chunks - length (order_of c.policy)) =
        omega (arith, small, low_fits, within, fits) in
      rw
        (
          test,
          free,
          rounds,
          evict_chunks-overrun
              (thresholds.low_chunks - (c.policy.total_chunks - length (order_of c.policy))) c m
              (omega (arith, small, within)),
        )
        refl
