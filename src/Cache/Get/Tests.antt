-- ===== src/Cache/Get/Tests.antt =====
-- src/cache.c: the parts of zn_cache_get at a cache of two zones of one chunk, where the id 7 is being
-- written to zone 0, and at the cache that this leaves.
use zncache.Base.{
  suc, ◌+◌, List, ℕ, ◌<◌, ◌≡◌, ◌==◌, refl, arith, true, false, inl, inr, Option, none, some, [],
  ◌∷◌, u32, ok, Run, aborted, overrun, out_of_fuel, Returns, Returns-at, if◌then◌else◌,
}
use zncache.Glib.{assoc, list_queues, list_links, list_tables}
use zncache.Zones.{free, write_occuring, zns, Zone, ZnPair, ZoneStateManager, Zbd, chunk_pointer}
use zncache.Zones.Invariant.{IsValid}
use zncache.CacheMap.{CacheMap, ZoneMapResult, result_cond, writes, find, find_entry, init}
use zncache.CacheMap.Invariant.{IsConsistent}
use zncache.CacheMap.Lookup.{find_correct, init-IsConsistent}
use zncache.Eviction.Lru.Moves.{IsLinked, IsFresh}
use zncache.Eviction.Promotional.{Promotional}
use zncache.Zones.{close_zone}
use zncache.Zones.Calls.{return_active_zone}
use zncache.CacheMap.{insert, insert_entry}
use zncache.Eviction.Lru.{append}
use zncache.Eviction.Promotional
use zncache.Cache.Disk.{memory_disk, write_out, write_loop, write_piece}
use zncache.Cache.Buffer.{with_id, validate_read, gen_write_buffer}
use zncache.Cache.Get.{Cache, Surroundings, fill, get, publish}
use zncache.Cache.Get.Ready.{Ready}
use zncache.Eviction.Promotional.Calls.{zones as zones_of}
use zncache.Cache.Get.Hit.{HitLeaves, get_hit_correct}
use zncache.Cache.Get.Fill.{Filled, Stored, fill_correct}
use zncache.Cache.Get.RoundTrip.{get-Stored_validates}

abbrev zeros : ℕ → ℕ
zeros i = 0

abbrev good : Zbd
good = record { open_zones = λ wp n. 0; finish_zones = λ wp n. 0; reset_zones = λ wp n. 0 }

abbrev env : Surroundings
env = record {
  zbd = λ k. good;
  is_unlocked = λ k. true;
  fresh = λ queue. 10;
  read_memory = some zeros;
  has_memory = true;
}

abbrev zones : ℕ → Zone
zones i =
    if i == 0
    then record { state = write_occuring; zone_id = 0; chunk_offset = 0; invalid = [] }
    else record { state = free; zone_id = i; chunk_offset = 0; invalid = [] }

abbrev zone_state : ZoneStateManager
zone_state = record {
  active = [];
  free = 1 ∷ [];
  state = zones;
  writes_occurring = 1;
  zone_cap = 4096;
  zone_size = 4096;
  chunk_size = 4096;
  max_nr_active_zones = 2;
  max_zone_chunks = 1;
  num_zones = 2;
  backend_type = zns;
}

zone_state-IsValid : IsValid zone_state
zone_state-IsValid = record {
  active_queue = λ i. ground arith;
  free_queue = λ i. ground arith;
  writes = refl;
  total = refl;
  capped = omega arith;
  ids = λ i p. ground arith;
  offsets = λ i p. ground arith;
  unused = λ i p f. ground arith;
  zones_fit = omega arith;
  limit_fits = omega arith;
  chunks_fit = omega arith;
}

abbrev place : ZnPair
place = record { zone = 0; chunk_offset = 0; id = 0; in_use = false }

abbrev waiting : ZoneMapResult
waiting = record { location = place; type = result_cond }

abbrev writing_map : CacheMap
writing_map = record {
  zone_map = (7, waiting) ∷ [];
  data_map = λ zone. [];
  active_readers = λ zone. 0;
}

writing_map-IsConsistent : IsConsistent writing_map
unfolding find find_entry init
writing_map-IsConsistent =
    (Returns-at {v = (writes, writing_map)}
      (find_correct true list_tables list_tables (init true list_tables list_tables (λ zone. 0)) 7
        (init-IsConsistent true list_tables list_tables (λ zone. 0)))
      refl).0

abbrev empty : Promotional
empty = record { lru = record { queue = []; nodes = [] }; zone_max_chunks = 1 }

empty-IsLinked : IsLinked empty.lru
empty-IsLinked = record { links = tt; mapped = λ n x e. cc; queued = λ n x e. cc }

abbrev sample : Cache (ℕ → ℕ)
sample = record {
  chunk_sz = 4096;
  zone_size = 4096;
  io_size = 4096;
  cache_map = writing_map;
  eviction_policy = empty;
  zone_state = zone_state;
  hits = 0;
  misses = 0;
  disk = zeros;
}

abbrev filled : Run (Option (ℕ → ℕ) × Cache (ℕ → ℕ))
filled =
    fill true list_queues list_tables list_tables list_links list_tables memory_disk 1 env sample 7
      zeros (some place)

sample-Filled : Returns (λ (data', c'). Filled memory_disk sample 7 place zeros data' c') filled
unfolding chunk_pointer
sample-Filled =
    fill_correct true list_queues list_tables list_tables list_links list_tables memory_disk 1 env
      sample 7 place zone_state-IsValid
      (record { inside = omega arith; claimed = refl; offset = refl }) writing_map-IsConsistent refl
      zeros refl (omega arith) (omega arith) (omega arith) (λ wp. refl) (omega arith) refl
      empty-IsLinked (λ y e. cc) (λ e. refl) (omega arith) (omega arith)

-- The cache that the call left.
abbrev cache_of : Run (Option (ℕ → ℕ) × Cache (ℕ → ℕ)) → Cache (ℕ → ℕ)
cache_of (ok (data', c)) = c
cache_of aborted = sample
cache_of overrun = sample
cache_of out_of_fuel = sample

abbrev after : Cache (ℕ → ℕ)
after = cache_of filled

abbrev data_of : Run (Option (ℕ → ℕ) × Cache (ℕ → ℕ)) → Option (ℕ → ℕ)
data_of (ok (data', c)) = data'
data_of aborted = none
data_of overrun = none
data_of out_of_fuel = none

left_by :
    (r : Run (Option (ℕ → ℕ) × Cache (ℕ → ℕ)))
    → Returns (λ (data', c'). Filled memory_disk sample 7 place zeros data' c') r
    → Filled memory_disk sample 7 place zeros (data_of r) (cache_of r)
left_by (ok (data', c)) h = Returns-at h refl
left_by aborted h = elim h [ ]
left_by overrun h = elim h [ ]
left_by out_of_fuel h = elim h [ ]

data_of-filled : data_of filled ≡ some (with_id 7 zeros)
unfolding chunk_pointer fill gen_write_buffer write_out write_loop write_piece publish
    return_active_zone close_zone Promotional.update append insert insert_entry
data_of-filled = refl

Stored-after : Stored memory_disk sample 7 place (with_id 7 zeros) after
Stored-after = elim (left_by filled sample-Filled) [
  | inl (e, s) ↦ s
  | inr (e, u) ↦ cc (data_of-filled)
]

few-after : after.cache_map.active_readers 0 < u32
few-after = rw (Stored-after.map.readers) (omega arith)

queue-after : after.eviction_policy.lru.queue ≡ (10, 0) ∷ []
unfolding chunk_pointer fill gen_write_buffer write_out write_loop write_piece publish
    return_active_zone close_zone Promotional.update append insert insert_entry
queue-after = refl

-- The use moves the only link of the queue, and the new link gets its address.
IsFresh-after : IsFresh after.eviction_policy.lru 10 0
IsFresh-after y e = let there : assoc ((10, 0) ∷ []) 10 ≡ some y = rw (queue-after) at e in cc

get_hit_correct_example :
    Returns
      (λ (data', c''). HitLeaves memory_disk after place data' c'')
      (get true list_queues list_tables list_tables list_links list_tables memory_disk 1 env 9 after
        7 zeros)
unfolding chunk_pointer
get_hit_correct_example =
    get_hit_correct true list_queues list_tables list_tables list_links list_tables memory_disk 1
      env 9 after 7 place zeros zeros Stored-after.map.consistent Stored-after.place few-after refl
      (rw (Stored-after.sizes.io) (omega arith))
      (rw (Stored-after.sizes.chunk, Stored-after.sizes.zone) (omega arith))
      Stored-after.policy.linked IsFresh-after (rw (Stored-after.policy.chunks) (omega arith))
      (rw (Stored-after.policy.chunks) (omega arith))

get-Stored_validates_example :
    Returns
      (λ (data', c'').
        (bytes : ℕ → ℕ) → data' ≡ some bytes → validate_read 4096 bytes 7 zeros ≡ ok true)
      (get true list_queues list_tables list_tables list_links list_tables memory_disk 1 env 9 after
        7 zeros)
unfolding chunk_pointer
get-Stored_validates_example =
    get-Stored_validates true list_queues list_tables list_tables list_links list_tables memory_disk
      1 env 9 sample after 7 place zeros zeros zeros Stored-after (omega arith) (omega arith)
      (omega arith) few-after refl (omega arith) (omega arith) IsFresh-after (omega arith)
      (omega arith)

-- An address above those of all links.
abbrev above : List (ℕ × ℕ) → ℕ
above [] = 0
above ((n, x) ∷ queue) = suc (n + above queue)

abbrev fresh_env : Surroundings
fresh_env = record env { fresh = above }

-- All zones are free, and the id 7 is to be written.
abbrev all_free : Cache (ℕ → ℕ)
all_free = record sample {
  zone_state = record zone_state {
    free = 0 ∷ 1 ∷ [];
    state = λ i. record { state = free; zone_id = i; chunk_offset = 0; invalid = [] };
    writes_occurring = 0;
  };
}
