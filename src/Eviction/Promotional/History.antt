-- ===== src/Eviction/Promotional/History.antt =====
-- src/eviction/promotional.c: sequences of calls of the policy, and what they say of its queue.
use zncache.Base.{
  ℕ, suc, ◌+◌, ◌≤◌, ◌<◌, ◌≡◌, ◌≢◌, arith, Bool, Bool-cases, true, false, ◌&&◌, Option, List, [],
  ◌∷◌, ◌==◌, if◌then◌else◌, u32, length, ok,
}
use zncache.Glib.{Links, Tables}
use zncache.Zones.{ZnPair}
use zncache.Eviction.{IoType, read, write}
use zncache.Eviction.Lru.Queue.{without, moved_last, listed}
use zncache.Eviction.Lru.Moves.{IsLinked, IsFresh}
use zncache.Eviction.Promotional.{Promotional, update, get_zone_to_evict}
use zncache.Eviction.Promotional.Calls.{zones, IsNewZone}
use zncache.Eviction.Lru.Ordering.{
  listed-without, Ordered, Ordered-without, Ordered-same, Ordered-append,
}

-- What happened to the policy, the latest first.
pub data Event : Type 0 where
  used : ZnPair → IoType → Event
  evicted : ℕ → Event

-- A use of a zone: any read in it, and the write that fills it.
abbrev pub is_use : ℕ → Event → ℕ → Bool
is_use chunks (used location read) zone = location.zone == zone
is_use chunks (used location write) zone =
    location.zone == zone && location.chunk_offset + 1 == chunks
is_use chunks (evicted z) zone = false

-- When the last use of a zone was, from 1 on; 0 for a zone without use.
abbrev pub last_use : ℕ → List Event → ℕ → ℕ
last_use chunks [] zone = 0
last_use chunks (e ∷ h) zone =
    if is_use chunks e zone then suc (length h) else last_use chunks h zone

-- Whether a zone was filled, and not evicted since.
abbrev pub is_filled : ℕ → List Event → ℕ → Bool
is_filled chunks [] zone = false
is_filled chunks (used location write ∷ h) zone =
    if location.zone == zone && location.chunk_offset + 1 == chunks
    then true
    else is_filled chunks h zone
is_filled chunks (used location read ∷ h) zone = is_filled chunks h zone
is_filled chunks (evicted z ∷ h) zone = if z == zone then false else is_filled chunks h zone

pub last_use-le : (chunks : ℕ) (h : List Event) (zone : ℕ) → last_use chunks h zone ≤ length h
last_use-le chunks [] zone = omega arith
last_use-le chunks (e ∷ h) zone =
    ground (arith, last_use-le chunks h zone, Bool-cases (is_use chunks e zone))

-- The policy's calls in any order. A location lies in its zone, a zone is filled once between two
-- evictions, and a new link gets an address that no other link has.
pub data Trace (links : Links) (tables : Tables (Option ℕ)) (chunks : ℕ)
    : Promotional → List Event → Type 0 where
  start :
      Trace links tables chunks
        (record { lru = record { queue = []; nodes = [] }; zone_max_chunks = chunks })
        []
  touch :
      {p t : Promotional} {h : List Event} (fresh : ℕ) (location : ZnPair) (io_type : IoType)
      → Trace links tables chunks p h
      → IsFresh p.lru fresh location.zone
      → IsNewZone p location io_type
      → location.chunk_offset < chunks
      → update links tables p fresh location io_type ≡ ok t
      → Trace links tables chunks t (used location io_type ∷ h)
  take :
      {p t : Promotional} {h : List Event} (zone : ℕ)
      → Trace links tables chunks p h
      → length p.lru.queue < u32
      → zones p ≢ []
      → get_zone_to_evict links tables true p ≡ (zone, t)
      → Trace links tables chunks t (evicted zone ∷ h)

-- The zones of the queue are those that were filled and not evicted since, in the order of last use.
pub record Tracks (chunks : ℕ) (h : List Event) (p : Promotional) : Type 0 where
  pub linked : IsLinked p.lru
  pub max : p.zone_max_chunks ≡ chunks
  pub members : (zone : ℕ) → listed zone (zones p) ≡ is_filled chunks h zone
  pub ordered : Ordered (last_use chunks h) (zones p)

module _ (chunks : ℕ) (h : List Event) (zone : ℕ) (e : Event) where
  -- A use of a zone moves it behind all others.
  pub moved-Ordered :
      (ys : List ℕ)
      → ((z : ℕ) → is_use chunks e z ≡ (zone == z))
      → Ordered (last_use chunks h) ys
      → Ordered (last_use chunks (e ∷ h)) (moved_last zone ys)
  moved-Ordered ys uses o =
      Ordered-append (last_use chunks (e ∷ h)) zone (without zone ys)
        (λ y there.
          ground (arith, uses y, uses zone, last_use-le chunks h y, listed-without zone y ys))
        (Ordered-same (last_use chunks h) (last_use chunks (e ∷ h)) (without zone ys)
          (λ y there. ground (arith, uses y, listed-without zone y ys))
          (Ordered-without (last_use chunks h) zone ys o))

  -- An event that is no use of a listed zone keeps the order.
  pub unused-Ordered :
      (ys : List ℕ)
      → ((z : ℕ) → listed z ys ≡ true → is_use chunks e z ≡ false)
      → Ordered (last_use chunks h) ys
      → Ordered (last_use chunks (e ∷ h)) ys
  unused-Ordered ys unused o =
      Ordered-same (last_use chunks h) (last_use chunks (e ∷ h)) ys
        (λ y there. ground (arith, unused y there)) o
