-- ===== src/Zones/System.antt =====
-- src/zone_state_manager.c under threads: every interleaving of calls, each of which holds the mutex.
-- Beside the state stand the locations that threads are writing to, and the chunks that hold data.
pub mod Writers
pub mod Safety
use zncache.Base.{
  ℕ, ◌+◌, ◌<◌, ◌≡◌, ◌≢◌, ◌⊎◌, Bool, true, false, List, [], ◌∷◌, ◌++◌, ◌==◌, ◌&&◌, ok, length,
  if◌then◌else◌,
}
use zncache.Glib.{Queues}
use zncache.Zones.{full, ZnPair, ZoneStateManager, Zbd, on_zns}
use zncache.Zones.Calls.{
  ActiveZone, success, mark_chunk_invalid, get_active_zone, return_active_zone, failed_to_write,
  zone_evict,
}
use zncache.Zones.Invariant.{IsValid}
use zncache.Zones.Active.{Opens}
use zncache.Zones.Return.{Outstanding, Finishes}

pub record System : Type 0 where
  pub zones : ZoneStateManager
  pub writers : List ZnPair
  -- Zone and chunk: whether a completed write is there that no eviction has reset.
  pub written : ℕ → ℕ → Bool

abbrev pub mark_written : (ℕ → ℕ → Bool) → ZnPair → ℕ → ℕ → Bool
mark_written w pair z c = if z == pair.zone && c == pair.chunk_offset then true else w z c

abbrev pub unmark_zone : (ℕ → ℕ → Bool) → ℕ → ℕ → ℕ → Bool
unmark_zone w i z c = if z == i then false else w z c

-- The command that resets a zone succeeds.
abbrev pub Resets : Zbd → ZoneStateManager → Type 0
Resets zbd s = (wp : ℕ) → on_zns s.backend_type (zbd.reset_zones wp s.zone_cap) ≡ 0

-- One call by some thread. A thread gives back only what it was handed, and the eviction thread resets only
-- full zones. The commands that open and finish a zone succeed; the one that resets a zone may fail, and then
-- the call returns where assertions are disabled.
pub data Step (asserts : Bool) (q : Queues) (y : System) : System → Type 0 where
  claim :
      (zbd : Zbd) (pair : ZnPair) (t : ZoneStateManager)
      → Opens zbd y.zones
      → get_active_zone asserts q zbd y.zones ≡ ok (success pair, t)
      → Step asserts q y (record y { zones = t; writers = pair ∷ y.writers })
  finish :
      (zbd : Zbd) (before after : List ZnPair) (pair : ZnPair) (t : ZoneStateManager)
      → Finishes zbd y.zones
      → y.writers ≡ before ++ (pair ∷ after)
      → return_active_zone asserts q zbd y.zones pair ≡ ok (0, t)
      → Step asserts q y
          (record { zones = t; writers = before ++ after; written = mark_written y.written pair })
  give_up :
      (before after : List ZnPair) (pair : ZnPair) (t : ZoneStateManager)
      → y.writers ≡ before ++ (pair ∷ after)
      → failed_to_write asserts q y.zones pair ≡ ok t
      → Step asserts q y (record y { zones = t; writers = before ++ after })
  reset :
      (zbd : Zbd) (i : ℕ) (t : ZoneStateManager)
      → i < y.zones.num_zones
      → (y.zones.state i).state ≡ full
      → Resets zbd y.zones
      → zone_evict asserts q zbd y.zones i ≡ ok (0, t)
      → Step asserts q y (record y { zones = t; written = unmark_zone y.written i })
  no_zone :
      (zbd : Zbd) (t : ZoneStateManager) (answer : ActiveZone)
      → Opens zbd y.zones
      → ((pair : ZnPair) → answer ≢ success pair)
      → get_active_zone asserts q zbd y.zones ≡ ok (answer, t)
      → Step asserts q y (record y { zones = t })
  fail_reset :
      (zbd : Zbd) (i answer : ℕ) (t : ZoneStateManager)
      → i < y.zones.num_zones
      → (y.zones.state i).state ≡ full
      → answer ≢ 0
      → ((wp : ℕ) → on_zns y.zones.backend_type (zbd.reset_zones wp y.zones.zone_cap) ≡ answer)
      → zone_evict asserts q zbd y.zones i ≡ ok (0, t)
      → Step asserts q y (record y { zones = t })
  invalidate :
      (pair : ZnPair)
      → pair.zone < y.zones.num_zones
      → Step asserts q y (record y { zones = mark_chunk_invalid asserts q y.zones pair })

pub data Reach (asserts : Bool) (q : Queues) (start : System) : System → Type 0 where
  here : Reach asserts q start start
  next : {y z : System} → Reach asserts q start y → Step asserts q y z → Reach asserts q start z

-- No two writers are at the same zone.
abbrev pub Apart : ℕ → List ZnPair → Type 0
Apart z [] = Unit {0}
Apart z (p ∷ ps) = (z ≢ p.zone) × Apart z ps

abbrev pub Exclusive : List ZnPair → Type 0
Exclusive [] = Unit {0}
Exclusive (p ∷ ps) = Apart p.zone ps × Exclusive ps

abbrev pub AllOutstanding : ZoneStateManager → List ZnPair → Type 0
AllOutstanding s [] = Unit {0}
AllOutstanding s (p ∷ ps) = Outstanding s p × AllOutstanding s ps

pub record IsSafe (y : System) : Type 0 where
  pub valid : IsValid y.zones
  pub outstanding : AllOutstanding y.zones y.writers
  pub exclusive : Exclusive y.writers
  pub counted : y.zones.writes_occurring ≡ length y.writers
  -- Data lies only in full zones and below the next chunk of the others.
  pub data_below :
      (z c : ℕ)
      → y.written z c ≡ true
      → (z < y.zones.num_zones)
        × (((y.zones.state z).state ≡ full) ⊎ (c < (y.zones.state z).chunk_offset))
