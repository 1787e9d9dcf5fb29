-- ===== src/Cache/Get/Sound/Hit.antt =====
-- src/cache.c: what zn_cache_get of an id on the disk leaves of the whole cache.
use zncache.Base.{
  ℕ, ◌+◌, ◌≤◌, ◌<◌, ◌≡◌, refl, sym, ap, ◌∙◌, subst, arith, inl, inr, Bool-cases, true, Option, some,
  List, [], ◌∷◌, length, length-append, eq_or_ne, ok,
}
use zncache.Zones.{ZnPair, ZoneStateManager}
use zncache.Zones.Invariant.{IsValid}
use zncache.CacheMap.Invariant.{location_in, type_in, location_of}
use zncache.Glib.{assoc}
use zncache.Eviction.{read}
use zncache.Eviction.Lru.Queue.{listed, without}
use zncache.Eviction.Lru.Ordering.{listed-moved_last}
use zncache.Eviction.Promotional.{Promotional}
use zncache.Eviction.Promotional.Calls.{zones, after_use}
use zncache.Cache.Disk.{Device}
use zncache.Cache.Buffer.{validate_read}
use zncache.Cache.Buffer.Valid.{same-validates}
use zncache.Cache.Get.{Cache}
use zncache.Cache.Get.Ready.{Ready}
use zncache.Cache.Get.Hit.{HitLeaves}
use zncache.Cache.Get.Sound.{Sound, Sizes, Holds}

without-length : (x : ℕ) (ys : List ℕ) → length (without x ys) ≤ length ys
without-length x [] = omega arith
without-length x (y ∷ ys) = ground (arith, without-length x ys)

without-length-listed :
    (x : ℕ) (ys : List ℕ) → listed x ys ≡ true → length (without x ys) + 1 ≤ length ys
without-length-listed x [] there = cc
without-length-listed x (y ∷ ys) there =
    ground (arith, without-length x ys, without-length-listed x ys)

-- A read moves a zone at most: the same zones are in the policy, and not more of them.
after_read-listed :
    (p : Promotional) (l : ZnPair) (z : ℕ) → listed z (after_use p l read) ≡ listed z (zones p)
after_read-listed p l z = elim (Bool-cases (listed l.zone (zones p))) [
  | inr absent ↦ rw absent refl
  | inl there ↦
      rw (there, listed-moved_last l.zone z (zones p))
        (elim (eq_or_ne l.zone z) [
          | inl same ↦ rw (← same) (ground (arith, there))
          | inr ne ↦ ground (arith, ne)
        ])
]

after_read-length : (p : Promotional) (l : ZnPair) → length (after_use p l read) ≤ length (zones p)
after_read-length p l = elim (Bool-cases (listed l.zone (zones p))) [
  | inr absent ↦ rw absent (omega arith)
  | inl there ↦
      let shorter = without-length-listed l.zone (zones p) there in
      let longer = length-append (without l.zone (zones p)) (l.zone ∷ []) in
      rw there (omega (arith, shorter, longer))
]

module _ {D : Type 0} (device : Device D) (buffer : ℕ → ℕ) (c : Cache D) (l : ZnPair)
    (data' : Option (ℕ → ℕ)) (c' : Cache D) (s : Sound device buffer c)
    (h : HitLeaves device c l data' c') where
  zone_of : (z : ℕ) → listed z (zones c'.eviction_policy) ≡ listed z (zones c.eviction_policy)
  zone_of z = ap (listed z) h.used.order_is ∙ after_read-listed c.eviction_policy l z

  location_kept : (id : ℕ) → location_of c'.cache_map id ≡ location_of c.cache_map id
  location_kept id = ap (λ t. location_in (assoc t id)) h.ids_kept

  zone_state-is : (P : ZoneStateManager → Type 0) → P c.zone_state → P c'.zone_state
  zone_state-is P p = subst P (sym h.zones_kept) p

  hit-Ready : Ready c'
  hit-Ready = record {
    consistent = h.consistent;
    valid = zone_state-is IsValid s.ready.valid;
    linked = h.used.linked;
    all_full = λ z there. rw (h.zones_kept) (s.ready.all_full z (sym (zone_of z) ∙ there));
    queued = λ z. rw (h.zones_kept) λ inside was. zone_of z ∙ s.ready.queued z inside was;
    placed = λ id k at. rw (h.zones_kept) (s.ready.placed id k (sym (location_kept id) ∙ at));
    idle = λ z. rw (h.readers z) (s.ready.idle z);
    room =
        let n = ap length h.used.order_is in
        rw (h.zones_kept) (omega (arith, n, after_read-length c.eviction_policy l, s.ready.room));
  }

  hit-Sizes : Sizes c'
  hit-Sizes = record {
    some_zone = rw (h.zones_kept) s.sizes.some_zone;
    some_active = rw (h.zones_kept) s.sizes.some_active;
    agree = h.used.chunks ∙ (s.sizes.agree ∙ ap (λ z. z.max_zone_chunks) (sym h.zones_kept));
    long = rw (h.chunk) s.sizes.long;
    short = rw (h.chunk) s.sizes.short;
    progress = rw (h.io) s.sizes.progress;
    chunks_fit = rw (h.chunk, h.zone, h.zones_kept) s.sizes.chunks_fit;
    zones_fit = rw (h.zone, h.zones_kept) s.sizes.zones_fit;
  }

  hit-Holds :
      (id : ℕ) (k : ZnPair) → location_of c'.cache_map id ≡ some k → Holds device buffer c' id k
  hit-Holds id k at =
      let o = s.held id k (sym (location_kept id) ∙ at) in
      record {
        zone_inside = rw (h.zones_kept) o.zone_inside;
        chunk_inside = rw (h.zones_kept) o.chunk_inside;
        bytes =
            λ i inside. h.disk_kept _ ∙ rw (h.chunk, h.zone) (o.bytes i (rw (← h.chunk) inside));
      }

  pub hit-Sound : Sound device buffer c'
  hit-Sound = record {
    ready = hit-Ready;
    idle = rw (h.zones_kept) s.idle;
    no_reader = λ z. h.readers z ∙ s.no_reader z;
    no_writer = λ id cond. s.no_writer id (ap (λ t. type_in (assoc t id)) (sym h.ids_kept) ∙ cond);
    sizes = hit-Sizes;
    held = hit-Holds;
  }

  -- The data of a hit pass the test for its id.
  pub hit-validates :
      (id : ℕ) (bytes : ℕ → ℕ)
      → location_of c.cache_map id ≡ some l
      → id < 2147483648
      → data' ≡ some bytes
      → validate_read c.chunk_sz bytes id buffer ≡ ok true
  hit-validates id bytes at small e =
      same-validates c.chunk_sz bytes id buffer s.sizes.long s.sizes.short (omega arith)
        λ i inside. h.loaded bytes e i inside ∙ (s.held id l at).bytes i inside
