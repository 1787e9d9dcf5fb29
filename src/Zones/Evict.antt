-- ===== src/Zones/Evict.antt =====
-- src/zone_state_manager.c: zsm_evict.
use zncache.Base.{
  check-Returns, ℕ, ◌<◌, ◌≡◌, refl, ◌≢◌, arith, Bool, Bool-cases, true, false, [], ◌∷◌, ◌++◌, ok,
  aborted, Returns, Returns-map, eq_or_ne, ◌⊎◌, inl, inr, ◌∙◌, ◌↔◌, ◌==◌, returns, if◌then◌else◌,
}
use zncache.Glib.{Queues}
use zncache.Zones.{free, full, is, ZoneStateManager, Zbd, set_zone, on_zns, reset_zone}
use zncache.Zones.Calls.{zone_evict}
use zncache.Zones.Invariant.{IsValid}
use zncache.Zones.Keep.{relisted-IsValid, Move-IsValid, freed}

-- After an eviction of the zone `i`: it is free, behind the other free zones, and nothing else changed.
pub record Evicted (s : ZoneStateManager) (i : ℕ) (t : ZoneStateManager) : Type 0 where
  pub valid : IsValid t
  pub now_free : (t.state i).state ≡ free
  pub start : (t.state i).chunk_offset ≡ 0
  pub queued : t.free ≡ s.free ++ i ∷ []
  pub others : (j : ℕ) → j ≢ i → t.state j ≡ s.state j
  pub writes : t.writes_occurring ≡ s.writes_occurring
  pub active_kept : t.active ≡ s.active
  pub chunks : t.max_zone_chunks ≡ s.max_zone_chunks
  pub zones : t.num_zones ≡ s.num_zones
  pub limit : t.max_nr_active_zones ≡ s.max_nr_active_zones
  -- The list of invalid chunks is the old one.
  pub invalid_kept : (t.state i).invalid ≡ (s.state i).invalid

module _ (asserts : Bool) (q : Queues) (zbd : Zbd) (s : ZoneStateManager) (i : ℕ)
    (was : (s.state i).state ≡ full) where
  abbrev freed_state : ZoneStateManager
  freed_state = record (set_zone s i (record (s.state i) { state = free; chunk_offset = 0 })) {
    free = s.free ++ i ∷ [];
  }

  reset_zone-ok :
      ((wp : ℕ) → on_zns s.backend_type (zbd.reset_zones wp s.zone_cap) ≡ 0)
      → reset_zone asserts q zbd s i ≡ (0, freed_state)
  unfolding reset_zone
  reset_zone-ok works =
      let not_free : is (s.state i).state free ≡ false = ground (arith, was) in
      rw (not_free, works, q.push_tail_lem s.free i)

  reset_zone-fails :
      (error : ℕ)
      → error ≢ 0
      → ((wp : ℕ) → on_zns s.backend_type (zbd.reset_zones wp s.zone_cap) ≡ error)
      → reset_zone asserts q zbd s i ≡ (error, s)
  unfolding reset_zone
  reset_zone-fails error bad fails =
      let not_free : is (s.state i).state free ≡ false = ground (arith, was) in
      rw (not_free, fails) (ground arith)

  -- zsm_evict of a full zone of a valid state, where the command that resets a zone succeeds, returns 0
  -- and leaves a valid state in which the zone is free, behind the other free zones, and nothing else
  -- changed. The list of the zone's invalid chunks is not cleared.
  pub zone_evict_correct :
      IsValid s
      → i < s.num_zones
      → ((wp : ℕ) → on_zns s.backend_type (zbd.reset_zones wp s.zone_cap) ≡ 0)
      → Returns (λ r. (r.0 ≡ 0) × Evicted s i r.1) (zone_evict asserts q zbd s i)
  unfolding zone_evict
  zone_evict_correct v inside works = rw (reset_zone-ok works) (
      check-Returns asserts (is (s.state i).state full) (ground (arith, was)) (
        returns (
          refl,
          record {
            valid =
                Move-IsValid s i _ s.active _ s.writes_occurring v
                  (freed s v i inside was (omega (arith, v.offsets i inside)));
            now_free = ground arith;
            start = ground arith;
            queued = refl;
            others = λ j ne. ground arith;
            writes = refl;
            active_kept = refl;
            chunks = refl;
            zones = refl;
            limit = refl;
            invalid_kept = ground arith;
          },
        )))

  zone_evict_fails :
      (error : ℕ)
      → error ≢ 0
      → ((wp : ℕ) → on_zns s.backend_type (zbd.reset_zones wp s.zone_cap) ≡ error)
      → zone_evict asserts q zbd s i
        ≡ (if asserts then aborted else ok (0, set_zone s i (record (s.state i) { invalid = [] })))
  unfolding zone_evict
  zone_evict_fails error bad fails =
      rw (reset_zone-fails error bad fails, q.clear_lem (s.state i).invalid) (ground (arith, was))

  -- After a call that returned: what the command that resets the zone answered shows only in the state.
  pub record Hidden (answer : ℕ) (t : ZoneStateManager) : Type 0 where
    pub valid : IsValid t
    pub free_where : ((t.state i).state ≡ free) ↔ (answer ≡ 0)
    pub full_where : ((t.state i).state ≡ full) ↔ (answer ≢ 0)
    pub queue : t.free ≡ (if answer == 0 then s.free ++ i ∷ [] else s.free)
    pub cleared : (t.state i).invalid ≡ (if answer == 0 then (s.state i).invalid else [])
    pub others : (j : ℕ) → j ≢ i → t.state j ≡ s.state j
    pub writes : t.writes_occurring ≡ s.writes_occurring
    pub active_kept : t.active ≡ s.active
    pub zones : t.num_zones ≡ s.num_zones
    pub offset : (t.state i).chunk_offset ≡ (if answer == 0 then 0 else (s.state i).chunk_offset)

  -- zsm_evict of a full zone of a valid state, whatever the command that resets the zone answers. Where the
  -- command fails and assertions are enabled, the call aborts. In every other case it returns 0 and leaves a
  -- valid state, in which the zone is free, behind the other free zones, exactly where the command
  -- succeeded, and is still full exactly where it failed; its list of invalid chunks is cleared exactly
  -- where it failed; no other zone, no active zone and no count of writes changes.
  pub zone_evict_hides :
      (answer : ℕ)
      → IsValid s
      → i < s.num_zones
      → ((wp : ℕ) → on_zns s.backend_type (zbd.reset_zones wp s.zone_cap) ≡ answer)
      → ((asserts ≡ true) × (answer ≢ 0) × (zone_evict asserts q zbd s i ≡ aborted))
        ⊎ (((asserts ≡ false) ⊎ (answer ≡ 0))
            × Returns (λ (ret, t). (ret ≡ 0) × Hidden answer t) (zone_evict asserts q zbd s i))
  zone_evict_hides answer v inside is_answer = elim (eq_or_ne answer 0) [
    | inl works ↦ inr (
      inr works,
      Returns-map (zone_evict_correct v inside (λ wp. is_answer wp ∙ works))
          λ (ret, t) (zero_ret, e). (
            zero_ret,
            record {
              valid = e.valid;
              free_where = (λ _. works, λ _. e.now_free);
              full_where = (λ was_full. cc (e.now_free, was_full), λ bad. absurd (bad works));
              queue = rw works (e.queued);
              cleared = rw works (e.invalid_kept);
              others = e.others;
              writes = e.writes;
              active_kept = e.active_kept;
              offset = rw works (e.start);
              zones = e.zones;
            },
          ),
    )
    | inr bad ↦
        let fails = zone_evict_fails answer bad is_answer in
        elim (Bool-cases asserts) [
          | inl on ↦ inl (on, bad, fails ∙ rw on refl)
          | inr off ↦ inr (
            inl off,
            rw (fails, off)
                (returns (
                  refl,
                  record {
                    valid = relisted-IsValid s i [] v inside;
                    free_where = (λ e. ground (arith, was, e), λ e. absurd (bad e));
                    full_where = (λ e. bad, λ e. ground (arith, was));
                    queue = ground (arith, bad);
                    cleared = ground (arith, bad);
                    others = λ j ne. ground arith;
                    writes = refl;
                    active_kept = refl;
                    offset = ground (arith, bad);
                    zones = refl;
                  },
                )),
          )
        ]
  ]
