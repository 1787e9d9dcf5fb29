-- ===== src/Program/Cached/Tests.antt =====
-- src/zncache.c: the program over a disk in memory with three zones of two chunks.
use zncache.Base.{
  ◌+◌, ◌*◌, u64, ℕ, length, ◌⊎◌, ◌≤◌, ◌<◌, ◌≡◌, arith, true, false, List, [], ◌∷◌, Returns,
}
use zncache.Glib.{list_queues, list_links, list_tables}
use zncache.Zones.{free, Zone, zns, chunk_pointer}
use zncache.Cache.Disk.{memory_disk}
use zncache.Cache.Get.{Cache, Surroundings, get}
use zncache.Eviction.Promotional.Calls.{zones}
use zncache.Cache.Get.Sound.{Sound}
use zncache.Cache.Get.Sound.Places.{chunk_pointer_apart}
use zncache.Cache.Disk.Write.{Outside}
use zncache.Cache.Get.Sound.Calls.{Served, Favourable, get-Sound}
use zncache.Cache.Get.Sound.Used.{get_cache_size, get_cache_size_bounds}
use zncache.Zones.Init.{init_fields}
use zncache.Cache.Get.Sound.Samples.{plain_env, plain_env-Favourable}
use zncache.Program.Threads.{ThreadData, task_function}
use zncache.Program.Threads.Served.{EndedFrom}
use zncache.Program.Setup.{ZbdInfo, Fits, init_cache, init_cache-Sound, init_reader}
use zncache.Program.Evictor.{evict_round, evict_round-Sound}
use zncache.Program.Cached.{
  Action, request, evict_some, AllValid, asked, answered_ids, run_actions, run_actions_valid,
  cache_service, task_function-init,
}

abbrev zeros : ℕ → ℕ
zeros i = 0

abbrev blank : ℕ → Zone
blank i = record { state = free; zone_id = 0; chunk_offset = 0; invalid = [] }

abbrev info : ZbdInfo
info = record { nr_zones = 3; max_nr_active_zones = 0; zone_size = 16384 }

info-Fits : Fits info 4096 8192
info-Fits = record {
  some_zone = omega arith;
  zones_short = omega arith;
  limit_short = omega arith;
  long = omega arith;
  short = omega arith;
  some_chunk = omega arith;
  chunks_short = omega arith;
  capacity = omega arith;
  disk = omega arith;
}

abbrev plain : Cache (ℕ → ℕ) → Surroundings
plain c = plain_env

abbrev actions : List Action
actions = request 7 ∷ request 8 ∷ evict_some ∷ request 7 ∷ []

abbrev started : Cache (ℕ → ℕ)
started = init_cache true list_queues list_tables list_tables 0 blank info 4096 8192 zns zeros

init_cache-Sound_example : Sound memory_disk zeros started
init_cache-Sound_example =
    init_cache-Sound true list_queues blank info 4096 8192 zns info-Fits list_tables list_tables 0
      memory_disk zeros zeros

init_cache-Sound_started : Sound memory_disk zeros started
init_cache-Sound_started =
    init_cache-Sound true list_queues blank info 4096 8192 zns info-Fits list_tables list_tables 0
      memory_disk zeros zeros

run_actions_valid_example :
    Returns
      (λ (answers, c').
        (answered_ids answers ≡ asked actions)
        × AllValid 4096 zeros answers
        × Sound memory_disk zeros c')
      (run_actions true list_queues list_tables list_tables list_links list_tables memory_disk 2 1
        plain zeros actions started)
run_actions_valid_example =
    run_actions_valid true list_queues list_tables list_tables list_links list_tables memory_disk 2
      1 plain zeros (λ c. plain_env-Favourable) (omega arith) (omega arith) 0 blank info 4096 8192
      zns zeros info-Fits actions (omega arith)

abbrev one_thread : ThreadData
one_thread = record { nr_threads = 1; nr_threads_completed = 0; done = false }

abbrev service_works : (c : Cache (ℕ → ℕ)) → Favourable (plain c)
service_works c = plain_env-Favourable

task_function-init_example :
    Returns
      (EndedFrom
        (cache_service true list_queues list_tables list_tables list_links list_tables memory_disk 2
          1 plain zeros service_works
          (omega arith)
          (omega arith)
          0
          blank
          info
          4096
          8192
          zns
          zeros
          info-Fits)
        0
        (λ i. i)
        3
        one_thread
        started)
      (task_function
        (cache_service true list_queues list_tables list_tables list_links list_tables memory_disk 2
          1 plain zeros service_works
          (omega arith)
          (omega arith)
          0
          blank
          info
          4096
          8192
          zns
          zeros
          info-Fits)
        true
        (init_reader (λ i. i) 3)
        one_thread
        started)
task_function-init_example =
    task_function-init true list_queues list_tables list_tables list_links list_tables memory_disk 2
      1 plain zeros service_works (omega arith) (omega arith) 0 blank info 4096 8192 zns zeros
      info-Fits true (λ i. i) 3 one_thread (omega arith) (λ i inside. omega arith)

get-Sound_example :
    Returns
      (λ (data', c'). Served memory_disk zeros started 7 data' c')
      (get true list_queues list_tables list_tables list_links list_tables memory_disk 2 plain_env 2
        started 7 zeros)
get-Sound_example =
    get-Sound true list_queues list_tables list_tables list_links list_tables memory_disk 2
      (omega arith) (omega arith) zeros plain_env plain_env-Favourable 2 started 7 (omega arith)
      init_cache-Sound_started (omega arith)

evict_round-Sound_example :
    Returns
      (λ c'.
        Sound memory_disk zeros c'
        × (c'.chunk_sz ≡ started.chunk_sz)
        × (3 < length started.zone_state.free → c' ≡ started)
        × (length started.zone_state.free ≤ 3
            → (length c'.zone_state.free ≡ 4) ⊎ (zones c'.eviction_policy ≡ [])))
      (evict_round true list_queues list_tables list_tables list_links list_tables memory_disk 4 3
        plain_env started)
evict_round-Sound_example =
    evict_round-Sound true list_queues list_tables list_tables list_links list_tables memory_disk 4
      3 (omega arith) (omega arith) zeros plain_env started plain_env-Favourable
      init_cache-Sound_started

started_small : started.zone_state.num_zones * 8192 < u64
unfolding init_cache
started_small =
    let (_, _, _, _, number) = init_fields true list_queues blank 3 8192 16384 4096 14 zns in
    omega (arith, number)

get_cache_size_bounds_example :
    (get_cache_size list_links started.eviction_policy 8192
      ≡ length (zones started.eviction_policy) * 8192)
    × (get_cache_size list_links started.eviction_policy 8192 ≤ started.zone_state.num_zones * 8192)
get_cache_size_bounds_example =
    get_cache_size_bounds list_links memory_disk zeros started 8192 init_cache-Sound_started
      started_small

-- The last byte of the first zone of the disk, and the first chunk of the second.
chunk_pointer_apart_example :
    Outside (chunk_pointer 16384 4096 0 1) 4096 (chunk_pointer 16384 4096 1 0 + 4095)
chunk_pointer_apart_example =
    chunk_pointer_apart 16384 4096 3 2 (omega arith) (omega arith) 0 1 1 0 4095 (omega arith)
      (omega arith) (omega arith) (omega arith) (λ e. absurd (omega (arith, e))) (omega arith)
