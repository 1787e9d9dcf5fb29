-- ===== src/Program/Cached.antt =====
-- src/zncache.c over src/cache.c: threads that run over the cache that zn_init_cache sets up.
mod Tests
use zncache.Base.{
  ℕ, ◌-◌, ◌<◌, ◌≡◌, refl, ap, ◌∙◌, arith, Bool, true, Option, none, some, List, [], ◌∷◌, u32, u64,
  Run, ok, ◌>>=◌, Returns, returns, Returns-map, Returns-bind,
}
use zncache.Glib.{Queues, Links, Tables}
use zncache.Zones.{Zone, Backend}
use zncache.CacheMap.{ZoneMapResult}
use zncache.Cache.Disk.{Device}
use zncache.Cache.Buffer.{validate_read}
use zncache.Cache.Get.{Cache, Surroundings, get}
use zncache.Cache.Get.Sound.{Sound}
use zncache.Cache.Get.Sound.Calls.{Favourable, get-Sound}
use zncache.Program.Threads.{ThreadData, Service, task_function}
use zncache.Program.Threads.Served.{EndedFrom, task_function_correct}
use zncache.Program.Setup.{ZbdInfo, Fits, init_reader, init_cache, init_cache-Sound}
use zncache.Program.Evictor.{evict_round, evict_round-Sound}

-- What the program does with the cache: a request by a thread, or a round of the thread that evicts.
pub data Action : Type 0 where
  request : ℕ → Action
  evict_some : Action

-- The ids of the requests are below 2^31.
abbrev pub SmallIds : List Action → Type 0
SmallIds [] = Unit {0}
SmallIds (request id ∷ actions) = (id < 2147483648) × SmallIds actions
SmallIds (evict_some ∷ actions) = SmallIds actions

-- The ids of the requests, and those of the answers.
abbrev pub asked : List Action → List ℕ
asked [] = []
asked (request id ∷ actions) = id ∷ asked actions
asked (evict_some ∷ actions) = asked actions

abbrev pub answered_ids : List (ℕ × Option (ℕ → ℕ)) → List ℕ
answered_ids [] = []
answered_ids ((id, data') ∷ answers) = id ∷ answered_ids answers

-- All data that were given pass the test for their id.
abbrev pub AllValid : ℕ → (ℕ → ℕ) → List (ℕ × Option (ℕ → ℕ)) → Type 0
AllValid chunk_sz buffer [] = Unit {0}
AllValid chunk_sz buffer ((id, none) ∷ answers) = AllValid chunk_sz buffer answers
AllValid chunk_sz buffer ((id, some bytes) ∷ answers) =
    (validate_read chunk_sz bytes id buffer ≡ ok true) × AllValid chunk_sz buffer answers

module _ {D : Type 0} (asserts : Bool) (q : Queues) (ids : Tables ZoneMapResult) (chunks : Tables ℕ)
    (links : Links) (tables : Tables (Option ℕ)) (device : Device D)
    (low_thresh_zones high_thresh_zones : ℕ) (env : Cache D → Surroundings) (buffer : ℕ → ℕ) where
  -- zn_cache_get with the rounds of its loop that a thread alone needs.
  abbrev pub request_id : Cache D → ℕ → Run (Option (ℕ → ℕ) × Cache D)
  request_id c id =
      get asserts q ids chunks links tables device low_thresh_zones (env c) 2 c id buffer

  -- The actions one after the other, with the answers to the requests.
  unfoldable pub run_actions : List Action → Cache D → Run (List (ℕ × Option (ℕ → ℕ)) × Cache D)
  run_actions [] c = ok ([], c)
  run_actions (request id ∷ actions) c = request_id c id >>= λ (data', c').
      run_actions actions c' >>= λ (answers, c''). ok ((id, data') ∷ answers, c'')
  run_actions (evict_some ∷ actions) c =
      evict_round asserts q ids chunks links tables device low_thresh_zones high_thresh_zones
        (env c) c
      >>= λ c'. run_actions actions c'

  module _ (works : (c : Cache D) → Favourable (env c)) (low : high_thresh_zones < low_thresh_zones)
      (most : low_thresh_zones < u32) where
    cons-AllValid :
        (chunk_sz id : ℕ) (data' : Option (ℕ → ℕ)) (answers : List (ℕ × Option (ℕ → ℕ)))
        → ((bytes : ℕ → ℕ) → data' ≡ some bytes → validate_read chunk_sz bytes id buffer ≡ ok true)
        → AllValid chunk_sz buffer answers
        → AllValid chunk_sz buffer ((id, data') ∷ answers)
    cons-AllValid chunk_sz id none answers valid rest = rest
    cons-AllValid chunk_sz id (some bytes) answers valid rest = (valid bytes refl, rest)

    run_actions-Sound :
        (actions : List Action) (c : Cache D) (chunk_sz : ℕ)
        → SmallIds actions
        → Sound device buffer c
        → c.chunk_sz ≡ chunk_sz
        → Returns
            (λ (answers, c').
              (answered_ids answers ≡ asked actions)
              × AllValid chunk_sz buffer answers
              × Sound device buffer c')
            (run_actions actions c)
    unfolding run_actions
    run_actions-Sound [] c chunk_sz small s same = returns (refl, tt, s)
    run_actions-Sound (request id ∷ actions) c chunk_sz (first, small) s same =
        Returns-bind
          (get-Sound asserts q ids chunks links tables device low_thresh_zones (omega arith) most
            buffer (env c) (works c) 2 c id (omega arith) s first)
          λ (data', c') g.
            Returns-bind (run_actions-Sound actions c' chunk_sz small g.sound (g.chunk ∙ same))
              λ (answers, c'') (same_ids, valid, s''). returns (
                ap (◌∷◌ id) same_ids,
                cons-AllValid chunk_sz id data' answers
                    (λ bytes e. rw (← same) ((g.valid bytes e).0)) valid,
                s'',
              )
    run_actions-Sound (evict_some ∷ actions) c chunk_sz small s same =
        Returns-bind
          (evict_round-Sound asserts q ids chunks links tables device low_thresh_zones
            high_thresh_zones low most buffer (env c) c (works c) s)
          λ c' (s', chunk, _, _). run_actions-Sound actions c' chunk_sz small s' (chunk ∙ same)

    module _ (max_io : ℕ) (memory : ℕ → Zone) (info : ZbdInfo) (chunk_sz zone_cap : ℕ)
        (backend : Backend) (disk : D) (fits : Fits info chunk_sz zone_cap) where
      abbrev pub first_cache : Cache D
      first_cache =
          init_cache asserts q ids chunks max_io memory info chunk_sz zone_cap backend disk

      first-chunk : first_cache.chunk_sz ≡ chunk_sz
      unfolding init_cache
      first-chunk = refl

      first-Sound : Sound device buffer first_cache
      first-Sound =
          init_cache-Sound asserts q memory info chunk_sz zone_cap backend fits ids chunks max_io
            device buffer disk

      -- After zn_init_cache on a device whose sizes fit, any sequence of requests for ids below 2^31 and of
      -- rounds of evict_task, one at a time and in favourable surroundings, returns. Each request is
      -- answered, in order; data that zn_cache_get gives pass the test for their id, and the cache is sound at
      -- the end.
      pub run_actions_valid :
          (actions : List Action)
          → SmallIds actions
          → Returns
              (λ (answers, c').
                (answered_ids answers ≡ asked actions)
                × AllValid chunk_sz buffer answers
                × Sound device buffer c')
              (run_actions actions first_cache)
      run_actions_valid actions small =
          run_actions-Sound actions first_cache chunk_sz small first-Sound first-chunk

      -- The cache as the service that task_function asks.
      abbrev pub cache_service : Service (Cache D) chunk_sz buffer
      cache_service = record {
        get = request_id;
        IsGood = λ c. Sound device buffer c × (c.chunk_sz ≡ chunk_sz);
        get-IsGood = λ c id (s, same) small.
            Returns-map
              (get-Sound asserts q ids chunks links tables device low_thresh_zones (omega arith)
                most buffer (env c) (works c) 2 c id (omega arith) s small)
              λ (data', c') g.
                ((g.sound, g.chunk ∙ same), λ bytes e. rw (← same) ((g.valid bytes e).0));
      }

      -- After zn_init_cache on a device whose sizes fit, task_function, run by a thread alone in favourable
      -- surroundings over a workload of ids below 2^31, returns with the cache sound. Either every id of the
      -- workload was answered, in order, with data that pass the test, and the thread is counted as
      -- completed; or a request gave no data, and the thread is not counted.
      pub task_function-init :
          (verify : Bool) (workload : ℕ → ℕ) (workload_max : ℕ) (t : ThreadData)
          → workload_max < u64
          → ((i : ℕ) → i < workload_max → workload i < 2147483648)
          → Returns
              (EndedFrom cache_service 0 workload workload_max t first_cache)
              (task_function cache_service verify (init_reader workload workload_max) t first_cache)
      unfolding init_reader
      task_function-init verify workload workload_max t fits_64 small =
          Returns-map
            (task_function_correct cache_service verify (init_reader workload workload_max) t
              first_cache fits_64 small (omega arith) (first-Sound, first-chunk))
            λ v ended. ended.0
