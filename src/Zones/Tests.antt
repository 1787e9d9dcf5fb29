-- ===== src/Zones/Tests.antt =====
-- Runs of src/zone_state_manager.c on a small disk, and the theorems at concrete states.
use zncache.Base.{
  ℕ, ◌≡◌, refl, arith, ◌≢◌, ◌⊎◌, aborted, true, false, [], ◌∷◌, ok, ◌==◌, update, Returns,
  if◌then◌else◌,
}
use zncache.Glib.{list_queues}
use zncache.Zones.{
  free, full, active, write_occuring, zns, Zone, ZnPair, ZoneStateManager, Zbd, open_zone,
}
use zncache.Zones.Calls.{success, get_active_zone, return_active_zone, failed_to_write, zone_evict}
use zncache.Zones.Invariant.{IsValid}
use zncache.Zones.Active.{Answers, get_active_zone_correct}
use zncache.Zones.Return.{
  Outstanding, Written, Unwritten, return_active_zone_correct, failed_to_write_correct,
}
use zncache.Zones.Evict.{zone_evict_hides, Hidden}
use zncache.Zones.System.{System, claim, Reach, here, next, IsSafe, Apart}
use zncache.Zones.System.Safety.{initial, initial-Reach-IsSafe, claim_overwrites_nothing}

-- Zone commands that succeed, and zone commands that fail.
abbrev good : Zbd
good = record { open_zones = λ wp n. 0; finish_zones = λ wp n. 0; reset_zones = λ wp n. 0 }

abbrev bad : Zbd
bad = record { open_zones = λ wp n. 5; finish_zones = λ wp n. 5; reset_zones = λ wp n. 5 }

abbrev pair_at : ℕ → ℕ → ZnPair
pair_at z c = record { zone = z; chunk_offset = c; id = 0; in_use = false }

-- Three zones of two chunks: the first active, the second being written to, the third full.
abbrev zones : ℕ → Zone
zones i =
    if i == 0
    then record { state = active; zone_id = 0; chunk_offset = 1; invalid = [] }
    else if i == 1
    then record { state = write_occuring; zone_id = 1; chunk_offset = 1; invalid = [] }
    else record { state = full; zone_id = i; chunk_offset = 0; invalid = 0 ∷ [] }

abbrev sample : ZoneStateManager
sample = record {
  active = 0 ∷ [];
  free = [];
  state = zones;
  writes_occurring = 1;
  zone_cap = 8192;
  zone_size = 8192;
  chunk_size = 4096;
  max_nr_active_zones = 2;
  max_zone_chunks = 2;
  num_zones = 3;
  backend_type = zns;
}

sample-IsValid : IsValid sample
sample-IsValid = record {
  active_queue = λ i. ground arith;
  free_queue = λ i. ground arith;
  writes = refl;
  total = refl;
  capped = omega arith;
  ids = λ i p. ground arith;
  offsets = λ i p. ground arith;
  unused = λ i p f. ground arith;
  zones_fit = omega arith;
  limit_fits = omega arith;
  chunks_fit = omega arith;
}

sample-Outstanding : Outstanding sample (pair_at 1 1)
sample-Outstanding = record { inside = omega arith; claimed = refl; offset = refl }

get_active_zone_correct_example :
    Returns (Answers sample) (get_active_zone true list_queues good sample)
get_active_zone_correct_example =
    get_active_zone_correct true list_queues good sample sample-IsValid (λ wp. refl)

return_active_zone_correct_example :
    Returns
      (λ r. (r.0 ≡ 0) × Written sample (pair_at 1 1) r.1)
      (return_active_zone true list_queues good sample (pair_at 1 1))
return_active_zone_correct_example =
    return_active_zone_correct true list_queues sample (pair_at 1 1) sample-IsValid
      sample-Outstanding good (λ wp. refl)

failed_to_write_correct_example :
    Returns (Unwritten sample (pair_at 1 1)) (failed_to_write true list_queues sample (pair_at 1 1))
failed_to_write_correct_example =
    failed_to_write_correct true list_queues sample (pair_at 1 1) sample-IsValid sample-Outstanding

-- What the commands that fail answer.
abbrev answer : ℕ
answer = 5

zone_evict_hides_example :
    ((false ≡ true) × (answer ≢ 0) × (zone_evict false list_queues bad sample 2 ≡ aborted))
    ⊎ (((false ≡ false) ⊎ (answer ≡ 0))
        × Returns
            (λ (ret, t). (ret ≡ 0) × Hidden false list_queues bad sample 2 refl answer t)
            (zone_evict false list_queues bad sample 2))
zone_evict_hides_example =
    zone_evict_hides false list_queues bad sample 2 refl answer sample-IsValid (omega arith)
      (λ wp. refl)

-- An empty disk of two zones, and one claim from it.
abbrev empty_zones : ℕ → Zone
empty_zones i = record { state = free; zone_id = i; chunk_offset = 0; invalid = [] }

abbrev empty : ZoneStateManager
empty = record sample {
  active = [];
  free = 0 ∷ 1 ∷ [];
  state = empty_zones;
  writes_occurring = 0;
  num_zones = 2;
}

empty-IsValid : IsValid empty
empty-IsValid = record {
  active_queue = λ i. ground arith;
  free_queue = λ i. ground arith;
  writes = refl;
  total = refl;
  capped = omega arith;
  ids = λ i p. refl;
  offsets = λ i p. omega arith;
  unused = λ i p f. refl;
  zones_fit = omega arith;
  limit_fits = omega arith;
  chunks_fit = omega arith;
}

-- A zone that is opened and claimed.
abbrev claim_zone : (ℕ → Zone) → ℕ → ℕ → Zone
claim_zone state i =
    update (update state i (record (empty_zones i) { state = active })) i
      (record (empty_zones i) { state = write_occuring })

-- `empty` after one claim and after two.
abbrev claimed : ZoneStateManager
claimed = record empty { free = 1 ∷ []; state = claim_zone empty_zones 0; writes_occurring = 1 }

abbrev claimed_twice : ZoneStateManager
claimed_twice = record empty {
  free = [];
  state = claim_zone (claim_zone empty_zones 0) 1;
  writes_occurring = 2;
}

first_claim : get_active_zone true list_queues good empty ≡ ok (success (pair_at 0 0), claimed)
unfolding get_active_zone open_zone
first_claim = refl

second_claim :
    get_active_zone true list_queues good claimed ≡ ok (success (pair_at 1 0), claimed_twice)
unfolding get_active_zone open_zone
second_claim = refl

abbrev one_writer : System
one_writer = record { zones = claimed; writers = pair_at 0 0 ∷ []; written = λ z c. false }

one_writer_reached : Reach true list_queues (initial empty) one_writer
one_writer_reached = next here (claim good (pair_at 0 0) claimed (λ wp. refl) first_claim)

initial-Reach-IsSafe_example : IsSafe one_writer
initial-Reach-IsSafe_example =
    initial-Reach-IsSafe true list_queues empty one_writer empty-IsValid refl one_writer_reached

claim_overwrites_nothing_example : (one_writer.written 1 0 ≡ false) × Apart 1 (pair_at 0 0 ∷ [])
claim_overwrites_nothing_example =
    claim_overwrites_nothing true list_queues good empty one_writer (pair_at 1 0) claimed_twice
      empty-IsValid refl one_writer_reached (λ wp. refl) second_claim
