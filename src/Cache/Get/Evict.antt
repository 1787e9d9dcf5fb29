-- ===== src/Cache/Get/Evict.antt =====
-- src/cache.c: zn_fg_evict with the promotional policy.
use zncache.Base.{
  ℕ, zero, suc, ◌+◌, ◌≤◌, ◌<◌, ◌≡◌, refl, sym, ap, ◌∙◌, arith, ◌⊎◌, inl, inr, Bool, true, false,
  Option, List, [], ◌∷◌, length, length-append, ◌==◌, u32, Returns, returns, Returns-bind,
  Returns-map, check-Returns,
}
use zncache.Glib.{Queues, Links, Tables}
use zncache.Zones.{full, Backend, zns, block, on_zns}
use zncache.Zones.Calls.{get_num_free_zones}
use zncache.Zones.Invariant.{IsValid}
use zncache.Zones.Evict.{Evicted, zone_evict_correct}
use zncache.CacheMap.{ZoneMapResult}
use zncache.CacheMap.Invariant.{IsConsistent}
use zncache.CacheMap.Clear.{Cleared}
use zncache.CacheMap.ClearZone.{clear_zone_correct}
use zncache.Eviction.Promotional.{Promotional, no_zone}
use zncache.Eviction.Promotional.Calls.{zones, Keeps, get_zone_to_evict_correct}
use zncache.Cache.Disk.{Device}
use zncache.Cache.Get.{Cache, Surroundings, is_positive, evict_zone, evict_loop, fg_evict}
use zncache.Cache.Get.Ready.{SameShape-refl, Ready-short, Ready, Evicts}
use zncache.Cache.Get.Gone.{Evicts-cons}
use zncache.Cache.Get.Gone.{OneGone, Evicts-nil, OneGone-Ready}

works_anyway : (b : Backend) (n : ℕ) → n ≡ 0 → on_zns b n ≡ 0
works_anyway zns n e = e
works_anyway block n e = refl

module _ {D : Type 0} (asserts : Bool) (q : Queues) (ids : Tables ZoneMapResult) (chunks : Tables ℕ)
    (links : Links) (tables : Tables (Option ℕ)) (device : Device D) (low_thresh_zones : ℕ)
    (env : Surroundings) (unlocked : (k : ℕ) → env.is_unlocked k ≡ true)
    (resets : (k wp length : ℕ) → (env.zbd k).reset_zones wp length ≡ 0) where
  evict_zone-Evicted :
      (k : ℕ) (c : Cache D) (zone : ℕ)
      → IsConsistent c.cache_map
      → IsValid c.zone_state
      → zone < c.zone_state.num_zones
      → (c.zone_state.state zone).state ≡ full
      → is_positive (c.cache_map.active_readers zone) ≡ false
      → Returns
          (λ c'.
            IsConsistent c'.cache_map
            × Cleared c.cache_map c'.cache_map (λ z chunk. z == zone)
            × Evicted c.zone_state zone c'.zone_state
            × (c'.eviction_policy ≡ c.eviction_policy)
            × (c'.disk ≡ c.disk)
            × (c' ≡ record c { cache_map = c'.cache_map; zone_state = c'.zone_state }))
          (evict_zone asserts q ids chunks links tables device low_thresh_zones env k c zone)
  unfolding evict_zone
  evict_zone-Evicted k c zone v valid inside was idle =
      Returns-bind (clear_zone_correct asserts ids chunks c.cache_map zone v) λ m (v', cleared).
        let nobody : is_positive (m.active_readers zone) ≡ false = rw (cleared.readers) idle in
        rw nobody (
          Returns-bind
            (zone_evict_correct asserts q (env.zbd k) c.zone_state zone was valid inside
              (λ wp. works_anyway c.zone_state.backend_type _ (resets k wp _)))
            λ (ret, z) (e, evicted). rw e (
              check-Returns asserts (0 == 0) refl
                (returns (v', cleared, evicted, refl, refl, refl))))

  -- What the loop of zn_fg_evict leaves, with the zones that it evicted.
  abbrev pub EvictedUpTo : ℕ → Cache D → Cache D → Type 0
  EvictedUpTo n c c' =
      (gone : List ℕ) × Ready c'
      × Evicts c gone c'
      × (length gone ≤ n)
      × ((length gone ≡ n) ⊎ (zones c'.eviction_policy ≡ []))

  -- The round of the loop in which the policy has the given first zone.
  evict_first :
      (k : ℕ) (c : Cache D) (p : Promotional) (zone : ℕ) (rest : List ℕ)
      → Ready c
      → zones c.eviction_policy ≡ zone ∷ rest
      → Keeps c.eviction_policy rest p
      → Returns
          (λ c'. Ready c' × OneGone c zone c')
          (evict_zone asserts q ids chunks links tables device low_thresh_zones env k
            (record c { eviction_policy = p })
            zone)
  evict_first k c p zone rest r e keeps =
      let (inside, was) = r.all_full zone (rw e (ground arith)) in
      Returns-map
        (evict_zone-Evicted k (record c { eviction_policy = p }) zone r.consistent r.valid inside
          was (r.idle zone))
        λ c' (v, cleared, evicted, policy, disk, rest_kept).
          let one : OneGone c zone c' = record {
            order = e ∙ ap (◌∷◌ zone) (rw (policy) (sym keeps.order_is));
            cleared = cleared;
            evicted = evicted;
            disk_kept = disk;
            shape = record {
              chunk = ap (λ c. c.chunk_sz) rest_kept;
              zone = ap (λ c. c.zone_size) rest_kept;
              io = ap (λ c. c.io_size) rest_kept;
              in_policy = ap (λ p. p.zone_max_chunks) policy ∙ keeps.chunks;
              in_zones = evicted.chunks;
              number = evicted.zones;
            };
          } in
          (OneGone-Ready c c' zone r one v (rw (policy) (keeps.linked)), one)

  evict_loop-Evicted :
      (n k : ℕ) (c : Cache D)
      → Ready c
      → Returns
          (EvictedUpTo n c)
          (evict_loop asserts q ids chunks links tables device low_thresh_zones env n k c)
  unfolding evict_loop
  evict_loop-Evicted zero k c r =
      returns ([], r, Evicts-nil c c refl refl refl refl (SameShape-refl c), omega arith, inl refl)
  evict_loop-Evicted (suc n) k c r =
      elim (get_zone_to_evict_correct links tables (env.is_unlocked k) c.eviction_policy r.linked
        (Ready-short c r)) [
          | inl (e, why) ↦
              let nothing : zones c.eviction_policy ≡ [] = elim why [
                | inl locked ↦ cc (unlocked k)
                | inr none_left ↦ none_left
              ] in
              rw e (
                returns (
                  [],
                  r,
                  Evicts-nil c c refl refl refl refl (SameShape-refl c),
                  omega arith,
                  inr nothing,
                ))
          | inr (zone, rest, e, free, popped, keeps) ↦
              let (inside, was) = r.all_full zone (rw e (ground arith)) in
              let is_zone : (zone == no_zone) ≡ false = ground (arith, inside, r.valid.zones_fit) in
              rw (popped, is_zone)
                (Returns-bind (evict_first k c _ zone rest r e keeps) λ c' (r', one).
                  Returns-map (evict_loop-Evicted n (k + 1) c' r')
                    λ c'' (gone, ready, evicts, few, how). (
                      zone ∷ gone,
                      ready,
                      Evicts-cons c c' zone one gone c'' evicts,
                      omega (arith, few),
                      elim how [
                        | inl all ↦ inl (omega (arith, all))
                        | inr none_left ↦ inr none_left
                      ],
                    ))
        ]

  pub fg_evict_correct :
      (k : ℕ) (c : Cache D)
      → Ready c
      → low_thresh_zones < u32
      → length (zones c.eviction_policy) + length c.zone_state.free < u32
      → Returns
          (λ c'.
            (gone : List ℕ) × Ready c'
            × Evicts c gone c'
            × ((length c.zone_state.free ≤ low_thresh_zones)
                → (length c'.zone_state.free ≡ low_thresh_zones) ⊎ (zones c'.eviction_policy ≡ []))
            × (low_thresh_zones < length c.zone_state.free → zones c'.eviction_policy ≡ []))
          (fg_evict asserts q ids chunks links tables device low_thresh_zones env k c)
  unfolding fg_evict get_num_free_zones
  fg_evict_correct k c r small few =
      Returns-map (evict_loop-Evicted _ k c r) λ c' (gone, ready, evicts, most, how).
        let free_before = q.get_length_lem c.zone_state.free in
        let free_after = ap length evicts.freed ∙ length-append c.zone_state.free gone in
        let queue = ap length evicts.order ∙ length-append gone (zones c'.eviction_policy) in
        (
          gone,
          ready,
          evicts,
          λ below. elim how [
            | inl all ↦ inl (omega (arith, all, free_before, free_after, few, small, below))
            | inr none_left ↦ inr none_left
          ],
          λ above. elim how [
            | inl all ↦ absurd (omega (arith, all, free_before, queue, few, small, above))
            | inr none_left ↦ none_left
          ],
        )
