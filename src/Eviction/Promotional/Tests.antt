-- ===== src/Eviction/Promotional/Tests.antt =====
-- src/eviction/promotional.c: the theorems of the policy at a run in which zones of one chunk are filled,
-- read and evicted.
use zncache.Base.{ℕ, ◌<◌, ◌≡◌, ◌≢◌, ◌⊎◌, refl, arith, true, false, some, [], ◌∷◌}
use zncache.Glib.{list_links, list_tables}
use zncache.Zones.{ZnPair}
use zncache.Eviction.{read, write}
use zncache.Eviction.Lru.{append, promote}
use zncache.Eviction.Promotional.{Promotional, update, get_zone_to_evict, no_zone}
use zncache.Eviction.Promotional.History.{used, Trace, start, touch, Tracks, last_use, is_filled}
use zncache.Eviction.Promotional.LeastRecent.{Trace-Tracks, evicts_least_recent}

abbrev at : ℕ → ZnPair
at zone = record { zone = zone; chunk_offset = 0; id = 0; in_use = false }

abbrev empty : Promotional
empty = record { lru = record { queue = []; nodes = [] }; zone_max_chunks = 1 }

-- Zone 3 is filled, then zone 5; then zone 3 is read, and the new link gets the address of the old one.
abbrev filled_once : Promotional
filled_once = record empty { lru = record { queue = (10, 3) ∷ []; nodes = (3, some 10) ∷ [] } }

abbrev filled_twice : Promotional
filled_twice = record empty {
  lru = record { queue = (10, 3) ∷ (11, 5) ∷ []; nodes = (3, some 10) ∷ (5, some 11) ∷ [] };
}

abbrev read_again : Promotional
read_again = record empty {
  lru = record { queue = (11, 5) ∷ (10, 3) ∷ []; nodes = (3, some 10) ∷ (5, some 11) ∷ [] };
}

two_filled :
    Trace list_links list_tables 1 filled_twice (used (at 5) write ∷ used (at 3) write ∷ [])
unfolding update append
two_filled =
    touch 11 (at 5) write (touch 10 (at 3) write start (λ y e. cc) (λ e. refl) (omega arith) refl)
      (λ y e. ground arith) (λ e. refl) (omega arith) refl

one_read :
    Trace list_links list_tables 1 read_again
      (used (at 3) read ∷ used (at 5) write ∷ used (at 3) write ∷ [])
unfolding update append promote
one_read = touch 10 (at 3) read two_filled (λ y e. ground arith) tt (omega arith) refl

Trace-Tracks_example :
    Tracks 1 (used (at 3) read ∷ used (at 5) write ∷ used (at 3) write ∷ []) read_again
Trace-Tracks_example = Trace-Tracks list_links list_tables 1 (omega arith) one_read

-- Zone 5 goes first, though zone 3 was filled before it.
evicts_least_recent_example :
    (((get_zone_to_evict list_links list_tables true read_again).0 ≡ no_zone)
      × ((z : ℕ)
          → is_filled 1 (used (at 3) read ∷ used (at 5) write ∷ used (at 3) write ∷ []) z ≡ false))
    ⊎ ((zone : ℕ) × ((get_zone_to_evict list_links list_tables true read_again).0 ≡ zone)
        × (is_filled 1 (used (at 3) read ∷ used (at 5) write ∷ used (at 3) write ∷ []) zone ≡ true)
        × ((z : ℕ)
            → z ≢ zone
            → is_filled 1 (used (at 3) read ∷ used (at 5) write ∷ used (at 3) write ∷ []) z ≡ true
            → last_use 1 (used (at 3) read ∷ used (at 5) write ∷ used (at 3) write ∷ []) zone
              < last_use 1 (used (at 3) read ∷ used (at 5) write ∷ used (at 3) write ∷ []) z))
evicts_least_recent_example =
    evicts_least_recent list_links list_tables 1 (omega arith) one_read (omega arith)

zone_5_goes : (get_zone_to_evict list_links list_tables true read_again).0 ≡ 5
unfolding get_zone_to_evict
zone_5_goes = refl
