-- ===== src/Eviction/Promotional/LeastRecent.antt =====
-- src/eviction/promotional.c: the zone that the policy evicts is the one used the longest ago.
use zncache.Base.{
  ℕ, ◌+◌, ◌<◌, ◌≡◌, ◌≢◌, refl, arith, inl, inr, ◌⊎◌, Bool-cases, true, false, Option, List, [], ◌∷◌,
  ◌==◌, u32, length, ok, Returns-at, ap, subst, eq_or_ne,
}
use zncache.Glib.{Links, Tables}
use zncache.Zones.{ZnPair}
use zncache.Eviction.{IoType, read, write}
use zncache.Eviction.Lru.Queue.{moved_last, listed}
use zncache.Eviction.Lru.Moves.{IsFresh}
use zncache.Eviction.Promotional.{Promotional, update, get_zone_to_evict, no_zone}
use zncache.Eviction.Promotional.Calls.{
  zones, Keeps, after_use, IsNewZone, update_correct, get_zone_to_evict_correct,
}
use zncache.Eviction.Lru.Ordering.{listed-moved_last, Ordered}
use zncache.Eviction.Promotional.History.{
  Event, used, evicted, last_use, is_filled, Trace, start, touch, take, Tracks, moved-Ordered,
  unused-Ordered,
}

module _ (chunks : ℕ) (h : List Event) (p t : Promotional) (location : ZnPair)
    (k : Tracks chunks h p) where
  use-Tracks :
      (io_type : IoType)
      → Keeps p (after_use p location io_type) t
      → Tracks chunks (used location io_type ∷ h) t
  use-Tracks write s = elim (Bool-cases (location.chunk_offset + 1 == chunks)) [
    | inl last ↦
        let order : zones t ≡ moved_last location.zone (zones p) =
          ground (arith, last, s.order_is, k.max) in
        record {
          linked = s.linked;
          max = ground (arith, s.chunks, k.max);
          members = λ zone. rw order (
              ground (arith, last, listed-moved_last location.zone zone (zones p), k.members zone));
          ordered = rw order (
              moved-Ordered chunks h location.zone (used location write) (zones p)
                (λ z. ground (arith, last)) k.ordered);
        }
    | inr more ↦
        let order : zones t ≡ zones p = ground (arith, more, s.order_is, k.max) in
        record {
          linked = s.linked;
          max = ground (arith, s.chunks, k.max);
          members = λ zone. rw order (ground (arith, more, k.members zone));
          ordered = rw order (
              unused-Ordered chunks h location.zone (used location write) (zones p)
                (λ z there. ground (arith, more)) k.ordered);
        }
  ]
  use-Tracks read s = elim (Bool-cases (listed location.zone (zones p))) [
    | inl there ↦
        let order : zones t ≡ moved_last location.zone (zones p) =
          ground (arith, there, s.order_is) in
        record {
          linked = s.linked;
          max = ground (arith, s.chunks, k.max);
          members = λ zone. rw order (
              ground
                (arith, there, listed-moved_last location.zone zone (zones p), k.members zone));
          ordered = rw order (
              moved-Ordered chunks h location.zone (used location read) (zones p) (λ z. refl)
                k.ordered);
        }
    | inr absent ↦
        let order : zones t ≡ zones p = ground (arith, absent, s.order_is) in
        record {
          linked = s.linked;
          max = ground (arith, s.chunks, k.max);
          members = λ zone. rw order (k.members zone);
          ordered = rw order (
              unused-Ordered chunks h location.zone (used location read) (zones p)
                (λ z there. ground (arith, absent, there, eq_or_ne location.zone z)) k.ordered);
        }
  ]

-- The first element of an ordered list is not among the rest.
first_once : (f : ℕ → ℕ) (x : ℕ) (ys : List ℕ) → Ordered f (x ∷ ys) → listed x ys ≡ false
first_once f x ys (first, o) = elim (Bool-cases (listed x ys)) [
  | inl there ↦ absurd (omega (arith, first x there))
  | inr e ↦ e
]

take-Tracks :
    (chunks : ℕ) (h : List Event) (p t : Promotional) (zone : ℕ) (rest : List ℕ)
    → Tracks chunks h p
    → zones p ≡ zone ∷ rest
    → Keeps p rest t
    → Tracks chunks (evicted zone ∷ h) t
take-Tracks chunks h p t zone rest k e s =
    let o : Ordered (last_use chunks h) (zone ∷ rest) =
      subst (Ordered (last_use chunks h)) e k.ordered in
    record {
      linked = s.linked;
      max = ground (arith, s.chunks, k.max);
      members = λ z. rw s.order_is (
          ground (
            arith,
            first_once (last_use chunks h) zone rest o,
            k.members z,
            ap (listed z) e,
            eq_or_ne zone z,
          ));
      ordered =
          rw s.order_is (unused-Ordered chunks h zone (evicted zone) rest (λ z there. refl) o.1);
    }

module _ (links : Links) (tables : Tables (Option ℕ)) (chunks : ℕ) (fits : chunks < u32) where
  use_kept :
      (p t : Promotional) (h : List Event) (fresh : ℕ) (location : ZnPair) (io_type : IoType)
      → Tracks chunks h p
      → IsFresh p.lru fresh location.zone
      → IsNewZone p location io_type
      → location.chunk_offset < chunks
      → update links tables p fresh location io_type ≡ ok t
      → Tracks chunks (used location io_type ∷ h) t
  use_kept p t h fresh location io_type k free new inside e =
      use-Tracks chunks h p t location k io_type (
        Returns-at
          (update_correct links tables p fresh location io_type k.linked free new (rw k.max inside)
            (rw k.max fits))
          e)

  take_kept :
      (p t : Promotional) (h : List Event) (zone : ℕ)
      → Tracks chunks h p
      → length p.lru.queue < u32
      → zones p ≢ []
      → get_zone_to_evict links tables true p ≡ (zone, t)
      → Tracks chunks (evicted zone ∷ h) t
  take_kept p t h zone k room some_there e =
      elim (get_zone_to_evict_correct links tables true p k.linked room) [
        | inl (_, inl taken) ↦ cc
        | inl (_, inr empty) ↦ absurd (some_there empty)
        | inr (z, rest, order, _, same, s) ↦
            let z_is_zone : z ≡ zone = cc in
            let s' : Keeps p rest t = subst (Keeps p rest) (ap (λ r. r.1) e) s in
            take-Tracks chunks h p t zone rest k (rw (← z_is_zone) order) s'
      ]

  -- After any sequence of calls the queue holds exactly the zones that were filled and not evicted since,
  -- in the order of their last use, and its links agree with its table.
  pub Trace-Tracks :
      {p : Promotional} {h : List Event} → Trace links tables chunks p h → Tracks chunks h p
  Trace-Tracks start = record {
    linked = record { links = tt; mapped = λ n x e. cc; queued = λ n x e. cc };
    max = refl;
    members = λ zone. refl;
    ordered = tt;
  }
  Trace-Tracks (touch {p} {t} {h} fresh location io_type r free new inside e) =
      use_kept p t h fresh location io_type (Trace-Tracks r) free new inside e
  Trace-Tracks (take {p} {t} {h} zone r room some_there e) =
      take_kept p t h zone (Trace-Tracks r) room some_there e

  -- After any sequence of calls, the zone that the policy gives for an eviction was filled and not evicted
  -- since, and every other such zone was used later; where it gives none there is no such zone.
  pub evicts_least_recent :
      {p : Promotional} {h : List Event}
      → Trace links tables chunks p h
      → length p.lru.queue < u32
      → (((get_zone_to_evict links tables true p).0 ≡ no_zone)
          × ((z : ℕ) → is_filled chunks h z ≡ false))
        ⊎ ((zone : ℕ) × ((get_zone_to_evict links tables true p).0 ≡ zone)
            × (is_filled chunks h zone ≡ true)
            × ((z : ℕ)
                → z ≢ zone
                → is_filled chunks h z ≡ true
                → last_use chunks h zone < last_use chunks h z))
  evicts_least_recent {p} {h} r room =
      let k = Trace-Tracks r in
      elim (get_zone_to_evict_correct links tables true p k.linked room) [
        | inl (_, inl taken) ↦ cc
        | inl (none_given, inr empty) ↦
            inl (ap (λ r. r.0) none_given, λ z. ground (arith, k.members z, ap (listed z) empty))
        | inr (zone, rest, order, _, same, s) ↦
            let o : Ordered (last_use chunks h) (zone ∷ rest) =
              subst (Ordered (last_use chunks h)) order k.ordered in
            inr (
              zone,
              same,
              ground (arith, k.members zone, ap (listed zone) order),
              λ z ne filled. o.0 z (ground (arith, k.members z, ap (listed z) order, filled, ne)),
            )
      ]
