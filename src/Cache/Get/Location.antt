-- ===== src/Cache/Get/Location.antt =====
-- src/cache.c: what holds of the location that zn_cache_get gets.
use zncache.Base.{
  ℕ, ◌≡◌, refl, subst, arith, ◌⊎◌, inl, inr, false, Bool-cases, Option-cases, none, List, [],
}
use zncache.Glib.{assoc}
use zncache.Zones.{ZnPair, ZoneStateManager}
use zncache.Zones.Invariant.{IsValid}
use zncache.Zones.Active.{Claimed}
use zncache.Zones.Return.{Outstanding}
use zncache.CacheMap.Invariant.{location_of, IsConsistent}
use zncache.Eviction.Lru.Queue.{listed}
use zncache.Eviction.Lru.Moves.{IsLinked}
use zncache.Eviction.Promotional.Calls.{zones}
use zncache.Cache.Get.{Cache}
use zncache.Cache.Get.Ready.{SameShape-refl, WrittenAt, Ready, SameShape, Evicts}
use zncache.Cache.Get.Gone.{Evicts-nil}

-- The cache after a location was handed out: what the filling of the chunk needs, and what is kept.
pub record Claims {D : Type 0} (c : Cache D) (l : ZnPair) (c' : Cache D) : Type 0 where
  pub out : Outstanding c'.zone_state l
  pub valid : IsValid c'.zone_state
  pub consistent : IsConsistent c'.cache_map
  pub linked : IsLinked c'.eviction_policy.lru
  pub vacant : assoc (c'.cache_map.data_map l.zone) l.chunk_offset ≡ none
  pub unlisted : listed l.zone (zones c'.eviction_policy) ≡ false
  pub disk_kept : c'.disk ≡ c.disk
  pub entries :
      (id : ℕ)
      → location_of c.cache_map id ≡ none
      → assoc c'.cache_map.zone_map id ≡ assoc c.cache_map.zone_map id
  pub nowhere : (id : ℕ) → location_of c.cache_map id ≡ none → location_of c'.cache_map id ≡ none
  pub shape : SameShape c c'
  -- Zones were evicted only where none was active or free.
  pub origin :
      (before : Cache D) × (gone : List ℕ) × Ready before
      × Evicts c gone before
      × Claimed before.zone_state l c'.zone_state
      × ((gone ≡ []) ⊎ ((c.zone_state.active ≡ []) × (c.zone_state.free ≡ [])))
      × (c' ≡ record before { zone_state = c'.zone_state })

-- A zone that is handed out was not full, and its chunk was not written.
Claimed-vacant :
    {D : Type 0} (c : Cache D) (l : ZnPair) (t : ZoneStateManager)
    → Ready c
    → Claimed c.zone_state l t
    → assoc (c.cache_map.data_map l.zone) l.chunk_offset ≡ none
Claimed-vacant c l t r m =
    elim (Option-cases (assoc (c.cache_map.data_map l.zone) l.chunk_offset)) [
      | inl nothing ↦ nothing
      | inr (id, at) ↦
          let (k, here, z, chunk) = r.consistent.owned l.zone l.chunk_offset id at in
          let there : WrittenAt (c.zone_state.state l.zone) l.chunk_offset =
            subst (λ i. WrittenAt (c.zone_state.state i) l.chunk_offset) z
              (subst (WrittenAt (c.zone_state.state k.zone)) chunk (r.placed id k here)) in
          elim there [
            | inl was_full ↦ elim (m.was) [ inl a ↦ cc | inr f ↦ cc ]
            | inr (was_active, past) ↦ absurd (omega (arith, past, m.continued was_active))
          ]
    ]

Claimed-unlisted :
    {D : Type 0} (c : Cache D) (l : ZnPair) (t : ZoneStateManager)
    → Ready c
    → Claimed c.zone_state l t
    → listed l.zone (zones c.eviction_policy) ≡ false
Claimed-unlisted c l t r m = elim (Bool-cases (listed l.zone (zones c.eviction_policy))) [
  | inr absent ↦ absent
  | inl there ↦
      let (inside, was_full) = r.all_full l.zone there in elim (m.was) [ inl a ↦ cc | inr f ↦ cc ]
]

pub Claimed-Claims :
    {D : Type 0} (c : Cache D) (l : ZnPair) (t : ZoneStateManager)
    → Ready c
    → Claimed c.zone_state l t
    → Claims c l (record c { zone_state = t })
Claimed-Claims c l t r m = record {
  out = record { inside = rw (m.zones) (m.inside); claimed = m.claimed; offset = m.offset };
  valid = m.valid;
  consistent = r.consistent;
  linked = r.linked;
  vacant = Claimed-vacant c l t r m;
  unlisted = Claimed-unlisted c l t r m;
  disk_kept = refl;
  entries = λ id at. refl;
  nowhere = λ id at. at;
  shape = record {
    chunk = refl;
    zone = refl;
    io = refl;
    in_policy = refl;
    in_zones = m.chunks;
    number = m.zones;
  };
  origin = (c, [], r, Evicts-nil c c refl refl refl refl (SameShape-refl c), m, inl refl, refl);
}
