-- ===== src/Cache/Get/Sound/Miss.antt =====
-- src/cache.c: what zn_cache_get of an id that it writes leaves of the whole cache.
use zncache.Base.{
  ℕ, ◌+◌, ◌<◌, ◌≡◌, ◌≢◌, refl, sym, ap, ◌∙◌, arith, inl, inr, true, Option, some, ok, eq_or_ne,
}
use zncache.Glib.{assoc}
use zncache.Zones.{ZnPair, ZoneStateManager}
use zncache.Zones.Active.{Claimed}
use zncache.Zones.Return.{GivenBack}
use zncache.CacheMap.{CacheMap, result_cond}
use zncache.CacheMap.Clear.{entry_at, empty-location}
use zncache.CacheMap.Invariant.{location_in, type_in, location_of, type_of}
use zncache.Eviction.Promotional.Calls.{zones}
use zncache.Cache.Disk.{Device}
use zncache.Cache.Disk.Write.{Outside}
use zncache.Cache.Buffer.{with_id, validate_read}
use zncache.Cache.Buffer.Valid.{same-validates}
use zncache.Cache.Get.{Cache, location_pointer}
use zncache.Cache.Get.Ready.{Ready, WrittenAt}
use zncache.Cache.Get.Gone.{Evicts-before}
use zncache.Cache.Get.Location.{Claims}
use zncache.Cache.Get.Fill.{Stored, Undone, Filled, OnlyId, SameSizes, KeptOutside}
use zncache.Cache.Get.Sound.{Sound, Sizes, Holds}
use zncache.Cache.Get.Sound.Places.{chunk_pointer_apart}
use zncache.Cache.Get.Sound.Writing.{Writing}
use zncache.Cache.Get.Sound.Refill.{Tracks, Written-Tracks, Unwritten-Tracks}

Ready-Tracks : {D : Type 0} (c : Cache D) → Ready c → Tracks (zones c.eviction_policy) c.zone_state
Ready-Tracks c r = record { all_full = r.all_full; queued = r.queued; room = r.room }

module _ {D : Type 0} (device : Device D) (buffer : ℕ → ℕ) (id : ℕ) (c : Cache D) (l : ZnPair)
    (d : Cache D) (w : Writing device buffer id c) (m : Claims c l d) where
  -- How the location came to be claimed: the zones and the policy before the claim, after the evictions.
  record Moved : Type 0 where
    base : ZoneStateManager
    tracks : Tracks (zones d.eviction_policy) base
    claimed : Claimed base l d.zone_state
    located :
        (j : ℕ) (k : ZnPair)
        → location_of d.cache_map j ≡ some k
        → (location_of c.cache_map j ≡ some k) × WrittenAt (base.state k.zone) k.chunk_offset
    types :
        (j : ℕ)
        → type_of d.cache_map j ≡ some result_cond
        → type_of c.cache_map j ≡ some result_cond
    readers : d.cache_map.active_readers ≡ c.cache_map.active_readers
    one_write : d.zone_state.writes_occurring ≡ 1

  moved : Moved
  moved =
      let (b, gone, r, ev, claimed, _, rest) = m.origin in
      let map : d.cache_map ≡ b.cache_map = ap (λ (x : Cache D). x.cache_map) rest in
      let policy : zones d.eviction_policy ≡ zones b.eviction_policy =
        ap (λ (x : Cache D). zones x.eviction_policy) rest in
      record {
        base = b.zone_state;
        tracks = rw policy (Ready-Tracks b r);
        claimed = claimed;
        located = λ j k at.
            let here : location_of b.cache_map j ≡ some k = rw (← map) at in
            (Evicts-before c b gone j k ev here, r.placed j k here);
        types = λ j t. ev.types j (rw (← map) t);
        readers = ap (λ (x : CacheMap). x.active_readers) map ∙ ev.readers;
        one_write = claimed.one_more ∙ omega (arith, ev.writes, w.idle);
      }

  limit-Claims : 0 < d.zone_state.max_nr_active_zones
  limit-Claims = omega (arith, m.valid.capped, moved.one_write)

  -- The sizes of the cache at the end.
  after-Sizes :
      (e : Cache D)
      → GivenBack d.zone_state l e.zone_state
      → SameSizes d e
      → e.eviction_policy.zone_max_chunks ≡ d.eviction_policy.zone_max_chunks
      → Sizes e
  after-Sizes e back same policy =
      let chunk = same.chunk ∙ m.shape.chunk in
      let zone = same.zone ∙ m.shape.zone in
      let io = same.io ∙ m.shape.io in
      let number = back.zones ∙ m.shape.number in
      let chunks = back.chunks ∙ m.shape.in_zones in
      record {
        some_zone = rw number w.sizes.some_zone;
        some_active = rw (back.limit) limit-Claims;
        agree = policy ∙ (m.shape.in_policy ∙ (w.sizes.agree ∙ sym chunks));
        long = rw chunk w.sizes.long;
        short = rw chunk w.sizes.short;
        progress = rw io w.sizes.progress;
        chunks_fit = rw (chunks, chunk, zone) w.sizes.chunks_fit;
        zones_fit = rw (number, zone) w.sizes.zones_fit;
      }

  -- The data that were there before are at another place than the claimed one, and so are there still.
  after-Holds :
      (e : Cache D)
      → GivenBack d.zone_state l e.zone_state
      → SameSizes d e
      → KeptOutside device d l e
      → (j : ℕ) (k : ZnPair) → location_of d.cache_map j ≡ some k
      → Holds device buffer e j k
  after-Holds e back same kept j k at =
      let o = w.held j k ((moved.located j k at).0) in
      let number = back.zones ∙ m.shape.number in
      let chunks = back.chunks ∙ m.shape.in_zones in
      let inside : l.zone < c.zone_state.num_zones = rw (← m.shape.number) m.out.inside in
      let below : l.chunk_offset < c.zone_state.max_zone_chunks =
        rw (← m.shape.in_zones, ← m.out.offset) (m.valid.offsets l.zone m.out.inside) in
      let apart : l.zone ≡ k.zone → l.chunk_offset ≢ k.chunk_offset =
        λ z n. cc (m.consistent.found j k at, m.vacant, z, n) in
      record {
        zone_inside = rw number o.zone_inside;
        chunk_inside = rw chunks o.chunk_inside;
        bytes = λ i here.
            let within : i < c.chunk_sz = rw (← m.shape.chunk, ← same.chunk) here in
            let out =
              chunk_pointer_apart c.zone_size c.chunk_sz c.zone_state.num_zones
                c.zone_state.max_zone_chunks w.sizes.chunks_fit w.sizes.zones_fit l.chunk_offset
                l.zone k.chunk_offset k.zone i below inside o.chunk_inside o.zone_inside apart
                within in
            let there : Outside (location_pointer d l) d.chunk_sz (location_pointer e k + i) =
              rw (same.chunk, same.zone, m.shape.chunk, m.shape.zone) out in
            kept _ there
            ∙ rw (same.chunk, same.zone, m.shape.chunk, m.shape.zone, m.disk_kept)
                (o.bytes i within);
      }

  -- A location of another id after the write is that of before.
  other-location :
      (e : Cache D) (j : ℕ) (k : ZnPair)
      → OnlyId d.cache_map id e.cache_map
      → j ≢ id
      → location_of e.cache_map j ≡ some k
      → location_of d.cache_map j ≡ some k
  other-location e j k o ne at = sym (ap location_in (o.others j ne)) ∙ at

  other-type :
      (e : Cache D) (j : ℕ)
      → OnlyId d.cache_map id e.cache_map
      → j ≢ id
      → type_of e.cache_map j ≢ some result_cond
  other-type e j o ne cond =
      w.no_other j ne (moved.types j (sym (ap type_in (o.others j ne)) ∙ cond))

  after_readers :
      (e : Cache D) (z : ℕ) → OnlyId d.cache_map id e.cache_map → e.cache_map.active_readers z ≡ 0
  after_readers e z o = ap (λ (f : ℕ → ℕ). f z) (o.readers ∙ moved.readers) ∙ w.no_reader z

  below-Claims : l.chunk_offset < d.zone_state.max_zone_chunks
  below-Claims = rw (← m.out.offset) (m.valid.offsets l.zone m.out.inside)

  Stored-Sound : (e : Cache D) → Stored device d id l (with_id id buffer) e → Sound device buffer e
  Stored-Sound e s =
      let (tracks, here, still) =
        Written-Tracks (zones d.eviction_policy) moved.base d.zone_state e.zone_state l moved.tracks
          moved.claimed d.eviction_policy s.zones refl
          (m.shape.in_policy ∙ (w.sizes.agree ∙ sym m.shape.in_zones)) below-Claims in
      let own : (k : ZnPair) → location_of e.cache_map id ≡ some k → l ≡ k = λ k at. cc (s.place) in
      record {
        ready = record {
          consistent = s.map.consistent;
          valid = s.zones.back.valid;
          linked = s.policy.linked;
          all_full = λ z there. tracks.all_full z (rw (← s.policy.order_is) there);
          queued = λ z inside was. rw (s.policy.order_is) (tracks.queued z inside was);
          placed = λ j k at. elim (eq_or_ne j id) [
            | inl same ↦ rw (← own k (rw (← same) at)) here
            | inr ne ↦
                still k.zone k.chunk_offset
                  ((moved.located j k (other-location e j k s.map ne at)).1)
          ];
          idle = λ z. rw (after_readers e z s.map) refl;
          room = rw (s.policy.order_is) tracks.room;
        };
        idle = omega (arith, s.zones.back.one_less, moved.one_write);
        no_reader = λ z. after_readers e z s.map;
        no_writer = λ j cond. elim (eq_or_ne j id) [
          | inl same ↦
              let entry = ap type_in (entry_at (assoc e.cache_map.zone_map id) l s.place) in cc
          | inr ne ↦ other-type e j s.map ne cond
        ];
        sizes = after-Sizes e s.zones.back s.sizes s.policy.chunks;
        held = λ j k at. elim (eq_or_ne j id) [
          | inl same ↦
              rw (← own k (rw (← same) at), same)
                (record {
                  zone_inside = rw (s.zones.back.zones) m.out.inside;
                  chunk_inside = rw (s.zones.back.chunks) below-Claims;
                  bytes = λ i inside.
                      rw (s.sizes.chunk, s.sizes.zone) (s.on_disk i (rw (← s.sizes.chunk) inside));
                })
          | inr ne ↦
              after-Holds e s.zones.back s.sizes s.kept j k (other-location e j k s.map ne at)
        ];
      }

  Undone-Sound : (e : Cache D) → Undone device d id l e → Sound device buffer e
  Undone-Sound e s =
      let (tracks, still) =
        Unwritten-Tracks (zones d.eviction_policy) moved.base d.zone_state e.zone_state l
          moved.tracks moved.claimed s.zones in
      let nowhere = empty-location (assoc e.cache_map.zone_map id) s.entry in
      let ne : (j : ℕ) (k : ZnPair) → location_of e.cache_map j ≡ some k → j ≢ id =
        λ j k at same. cc (nowhere) in
      record {
        ready = record {
          consistent = s.map.consistent;
          valid = s.zones.back.valid;
          linked = rw (s.policy) m.linked;
          all_full = rw (s.policy) tracks.all_full;
          queued = rw (s.policy) tracks.queued;
          placed = λ j k at.
              still k.zone k.chunk_offset
                ((moved.located j k (other-location e j k s.map (ne j k at) at)).1);
          idle = λ z. rw (after_readers e z s.map) refl;
          room = rw (s.policy) tracks.room;
        };
        idle = omega (arith, s.zones.back.one_less, moved.one_write);
        no_reader = λ z. after_readers e z s.map;
        no_writer = λ j cond. elim (eq_or_ne j id) [
          | inl same ↦ cc (s.entry)
          | inr other ↦ other-type e j s.map other cond
        ];
        sizes = after-Sizes e s.zones.back s.sizes (ap (λ p. p.zone_max_chunks) s.policy);
        held = λ j k at.
            after-Holds e s.zones.back s.sizes s.kept j k
              (other-location e j k s.map (ne j k at) at);
      }

  -- A miss leaves the cache sound. Data that it gives pass the test for its id, which is on the disk.
  pub miss-Sound :
      (data' : Option (ℕ → ℕ)) (e : Cache D)
      → id < 2147483648
      → Filled device d id l buffer data' e
      → Sound device buffer e
        × (e.chunk_sz ≡ c.chunk_sz)
        × ((bytes : ℕ → ℕ)
            → data' ≡ some bytes
            → (validate_read c.chunk_sz bytes id buffer ≡ ok true)
              × ((k : ZnPair) × (location_of e.cache_map id ≡ some k)))
  miss-Sound data' e small (inl (is, s)) = (
    Stored-Sound e s,
    s.sizes.chunk ∙ m.shape.chunk,
    λ bytes given.
        let same : with_id id buffer ≡ bytes = cc in
        (
          rw (← same) (
              same-validates c.chunk_sz (with_id id buffer) id buffer w.sizes.long w.sizes.short
                (omega arith) (λ i h. refl)),
          (l, s.place),
        ),
  )
  miss-Sound data' e small (inr (is, s)) =
      (Undone-Sound e s, s.sizes.chunk ∙ m.shape.chunk, λ bytes given. cc)
