-- ===== src/Eviction/Chunk/Tests.antt =====
-- src/eviction/chunk.c: the policy for two zones of two chunks, of which the first chunk is in use.
use zncache.Base.{
  ℕ, ◌-◌, ◌<◌, ◌≡◌, ◌≢◌, refl, arith, true, false, none, some, List, [], ◌∷◌, length, ◌==◌,
  if◌then◌else◌, ok, overrun, Returns,
}
use zncache.Glib.{assoc, list_queues, list_links, list_tables}
use zncache.MinHeap.{Minheap}
use zncache.MinHeap.Insert.{IsValid}
use zncache.Zones.{free, active, zns, ZnPair, ZoneStateManager}
use zncache.Zones.Invariant
use zncache.CacheMap.{CacheMap, result_loc}
use zncache.CacheMap.Invariant.{IsConsistent}
use zncache.Cache.Disk.{memory_disk}
use zncache.Eviction.{write}
use zncache.Eviction.Chunk.{
  PoolZone, ChunkPolicy, ChunkCache, Thresholds, Collection, chunk_at, update_chunk,
}
use zncache.Eviction.Chunk.Calls.{evict_lru, collect_chunk, moved}
use zncache.Eviction.Chunk.Invariant.{order_of, IsCounted}
use zncache.Eviction.Chunk.Update.{Wrote, update_write_correct}
use zncache.Eviction.Chunk.Evict.{Managed, EvictsChunks}
use zncache.Eviction.Chunk.Evict.Whole.{evict_lru_correct}
use zncache.Eviction.Chunk.Faults.{collect_chunk_never, evict_lru_small}
use zncache.Eviction.Chunk.Setup.{init_chunk_policy, init_chunk_policy-IsCounted}

abbrev unused : ZnPair
unused = record { zone = 0; chunk_offset = 0; id = 0; in_use = false }

abbrev used_chunk : ZnPair
used_chunk = record { zone = 0; chunk_offset = 0; id = 0; in_use = true }

abbrev empty_heap : Minheap
empty_heap = record {
  arr = λ i. 0;
  size = 0;
  capacity = 4;
  memory = λ p. record { payload = 0; priority = 0; index = 0 };
}

empty_heap-IsValid : IsValid empty_heap
empty_heap-IsValid = record {
  heap = λ c p q. absurd (omega arith);
  indexed = λ c q. absurd (omega arith);
  room = omega arith;
  fits = omega arith;
}

abbrev no_chunks : PoolZone
no_chunks = record {
  zone_id = 0;
  chunks = λ c. unused;
  chunks_in_use = 0;
  filled = false;
  pqueue_entry = none;
}

abbrev policy : ChunkPolicy
policy = record {
  lru = record {
    queue = (10, 0) ∷ [];
    nodes = (0, some 10) ∷ (1, none) ∷ (2, none) ∷ (3, none) ∷ [];
  };
  invalid_pqueue = empty_heap;
  zone_pool = λ z.
      if z == 0
      then record no_chunks {
        chunks = λ c. if c == 0 then used_chunk else unused;
        chunks_in_use = 1;
      }
      else no_chunks;
  total_chunks = 4;
  max_zone_chunks = 2;
}

policy-IsCounted : IsCounted 2 policy
policy-IsCounted = record {
  linked = record {
    links = (refl, tt);
    mapped = λ n x at. ground arith;
    queued = λ n x at. ground arith;
  };
  some_chunk = omega arith;
  short = omega arith;
  listed_used = λ z c zi ci. ground arith;
  inside = λ a there. ground arith;
  own = λ z c zi ci at. ground arith;
  counted = λ z zi. ground arith;
  heap = empty_heap-IsValid;
  held = λ z e zi at. ground arith;
  payload = λ z e zi at. ground arith;
  priority = λ z e zi at. ground arith;
}

abbrev second : ZnPair
second = record { zone = 0; chunk_offset = 1; id = 0; in_use = false }

-- The second chunk of the zone is written, and fills it.
update_write_correct_example : Returns (Wrote 2 policy second) (
    update_chunk true list_links list_tables
      (record { link = 11; entry = some 5; grown = true })
      policy
      second
      write)
update_write_correct_example =
    update_write_correct true list_links list_tables 2 policy second policy-IsCounted 11 5
      (record {
        zone_inside = omega arith;
        chunk_inside = omega arith;
        unused = refl;
        not_full = refl;
      })
      (λ y at. cc) (λ h. absurd (omega (arith, h.0))) (omega arith) (omega arith)

abbrev zone_state : ZoneStateManager
zone_state = record {
  active = 0 ∷ [];
  free = 1 ∷ [];
  state = λ i.
      if i == 0
      then record { state = active; zone_id = 0; chunk_offset = 1; invalid = [] }
      else record { state = free; zone_id = i; chunk_offset = 0; invalid = [] };
  writes_occurring = 0;
  zone_cap = 8192;
  zone_size = 8192;
  chunk_size = 4096;
  max_nr_active_zones = 2;
  max_zone_chunks = 2;
  num_zones = 2;
  backend_type = zns;
}

zone_state-IsValid : Invariant.IsValid zone_state
zone_state-IsValid = record {
  active_queue = λ i. ground arith;
  free_queue = λ i. ground arith;
  writes = refl;
  total = refl;
  capped = omega arith;
  ids = λ i p. ground arith;
  offsets = λ i p. ground arith;
  unused = λ i p f. ground (arith, f);
  zones_fit = omega arith;
  limit_fits = omega arith;
  chunks_fit = omega arith;
}

abbrev map_of_seven : CacheMap
map_of_seven = record {
  zone_map = (7, record { location = used_chunk; type = result_loc }) ∷ [];
  data_map = λ z. if z == 0 then (0, 7) ∷ [] else [];
  active_readers = λ z. 0;
}

map_of_seven-IsConsistent : IsConsistent map_of_seven
map_of_seven-IsConsistent = record {
  found = λ id l e. ground (arith, e);
  owned = λ zone chunk id e. (used_chunk, ground (arith, e), ground (arith, e), ground (arith, e));
  fits = λ zone chunk id e. ground (arith, e);
  unique = λ zone. ground arith;
}

abbrev cache : ChunkCache (ℕ → ℕ)
cache = record {
  chunk_sz = 4096;
  zone_size = 8192;
  io_size = 4096;
  cache_map = map_of_seven;
  policy = policy;
  zone_state = zone_state;
  disk = λ i. 0;
}

cache-Managed : Managed cache
cache-Managed = record {
  counted = policy-IsCounted;
  consistent = map_of_seven-IsConsistent;
  valid = zone_state-IsValid;
  mapped = λ z ch zi ci used. (7, ground (arith, used));
  placed = λ id l at. (ground (arith, at), ground (arith, at), ground (arith, at));
}

abbrev thresholds : Thresholds
thresholds = record { low_chunks = 4; high_chunks = 3; low_zones = 1; high_zones = 0 }

abbrev env : Collection
env = record {
  zbd = λ round i. record {
    open_zones = λ wp n. 0;
    finish_zones = λ wp n. 0;
    reset_zones = λ wp n. 0;
  };
  fresh = λ queue. 20;
  read_memory = some (λ i. 0);
}

evict_lru_correct_example :
    Returns
      (λ (ret, c').
        (ret ≡ 0)
        × Managed c'
        × (gone : List ℕ) × EvictsChunks cache gone c'
        × (c'.policy.total_chunks - length (order_of c'.policy) ≡ 4))
      (evict_lru true list_queues list_tables list_tables list_links list_tables memory_disk
        thresholds true 1 env cache)
evict_lru_correct_example =
    evict_lru_correct true list_queues list_tables list_tables list_links list_tables memory_disk
      thresholds 1 env cache cache-Managed (omega arith) (omega arith) (omega arith) (omega arith)
      (omega arith) (omega arith) (omega arith) (omega arith)

evict_lru_small_example :
    evict_lru true list_queues list_tables list_tables list_links list_tables memory_disk
      (record thresholds { low_chunks = 12 })
      true
      1
      env
      cache
    ≡ overrun
evict_lru_small_example =
    evict_lru_small true list_queues list_tables list_tables list_links list_tables memory_disk
      (record thresholds { low_chunks = 12 }) 1 env cache cache-Managed (omega arith) (omega arith)
      (omega arith) (omega arith) (omega arith)

collect_chunk_never_example :
    collect_chunk true list_queues list_tables list_tables list_links list_tables memory_disk
      thresholds env 0 0 0 cache
    ≢ ok cache
collect_chunk_never_example =
    collect_chunk_never list_queues list_tables list_tables list_links list_tables memory_disk
      thresholds env cache cache 0 0 0 (λ e. cc)

abbrev other_zone : ZnPair
other_zone = record { zone = 1; chunk_offset = 0; id = 0; in_use = false }

abbrev moved_policy : ChunkPolicy
moved_policy =
    moved false list_queues list_tables list_tables list_links list_tables memory_disk thresholds
      policy 20 0 0 other_zone

init_chunk_policy-IsCounted_example :
    (let p = init_chunk_policy list_tables 2 (λ z. no_chunks) empty_heap 3 in
      IsCounted 3 p
      × (order_of p ≡ [])
      × ((z c : ℕ) → z < 3 → c < 2 → assoc p.lru.nodes (chunk_at p z c) ≡ some none))
init_chunk_policy-IsCounted_example =
    init_chunk_policy-IsCounted list_tables (λ z. no_chunks) empty_heap 3 2 (omega arith)
      (omega arith) empty_heap-IsValid (λ z. refl)
