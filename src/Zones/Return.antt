-- ===== src/Zones/Return.antt =====
-- src/zone_state_manager.c: zsm_return_active_zone and zsm_failed_to_write.
use zncache.Base.{
  check-Returns, ℕ, ◌+◌, ◌-◌, ◌%◌, ◌≤◌, ◌<◌, ◌≡◌, refl, ◌≢◌, arith, Bool, false, [], ◌∷◌, ◌++◌, ltb,
  ◌==◌, u32, Run, ◌>>◌, update-update, Returns, returns, Returns-if,
}
use zncache.Glib.{Queues}
use zncache.Zones.{
  full, active, write_occuring, is, ZnPair, ZoneStateManager, Zbd, set_zone, on_zns, close_zone,
}
use zncache.Zones.Calls.{check_written, return_active_zone, failed_to_write}
use zncache.Zones.Invariant.{IsValid}
use zncache.Zones.Keep.{Move-IsValid, returned, closed, one_write_less}

-- The pair is a location that was handed out and not given back.
pub record Outstanding (s : ZoneStateManager) (pair : ZnPair) : Type 0 where
  pub inside : pair.zone < s.num_zones
  pub claimed : (s.state pair.zone).state ≡ write_occuring
  pub offset : (s.state pair.zone).chunk_offset ≡ pair.chunk_offset

-- The state after a location was given back, with its zone in the given state at the given chunk.
pub record GivenBack (s : ZoneStateManager) (pair : ZnPair) (t : ZoneStateManager) : Type 0 where
  pub valid : IsValid t
  pub others : (j : ℕ) → j ≢ pair.zone → t.state j ≡ s.state j
  pub one_less : t.writes_occurring + 1 ≡ s.writes_occurring
  pub chunks : t.max_zone_chunks ≡ s.max_zone_chunks
  pub zones : t.num_zones ≡ s.num_zones
  pub free_kept : t.free ≡ s.free
  pub limit : t.max_nr_active_zones ≡ s.max_nr_active_zones

-- After a write: the zone is active again at its next chunk, behind the other active zones, or full
-- where that was its last chunk.
pub record Written (s : ZoneStateManager) (pair : ZnPair) (t : ZoneStateManager) : Type 0 where
  pub back : GivenBack s pair t
  pub more :
      pair.chunk_offset + 1 < s.max_zone_chunks
      → ((t.state pair.zone).state ≡ active)
        × ((t.state pair.zone).chunk_offset ≡ pair.chunk_offset + 1)
        × (t.active ≡ s.active ++ pair.zone ∷ [])
  pub last :
      pair.chunk_offset + 1 ≡ s.max_zone_chunks
      → ((t.state pair.zone).state ≡ full) × (t.active ≡ s.active)

-- After a failed write: the zone is active again at the same chunk.
pub record Unwritten (s : ZoneStateManager) (pair : ZnPair) (t : ZoneStateManager) : Type 0 where
  pub back : GivenBack s pair t
  pub again :
      ((t.state pair.zone).state ≡ active)
      × ((t.state pair.zone).chunk_offset ≡ pair.chunk_offset)
      × (t.active ≡ s.active ++ pair.zone ∷ [])

-- The zone commands that finish a zone succeed.
abbrev pub Finishes : Zbd → ZoneStateManager → Type 0
Finishes zbd s = (wp : ℕ) → on_zns s.backend_type (zbd.finish_zones wp s.zone_cap) ≡ 0

module _ (asserts : Bool) (q : Queues) (s : ZoneStateManager) (pair : ZnPair) (v : IsValid s)
    (out : Outstanding s pair) where
  fits : (q.get_length s.active + s.writes_occurring) % u32 ≤ s.max_nr_active_zones
  fits = omega (arith, q.get_length_lem s.active, v.capped, v.limit_fits)

  check_written-Returns {ℓ κ} :
      {B : Type ℓ} {P : B → Type κ} {r : Run B}
      → Returns P r
      → Returns P (check_written asserts q s pair >> r)
  unfolding check_written
  check_written-Returns p = ground (arith, fits, out.claimed, out.offset, p)

  below : (s.state pair.zone).chunk_offset < s.max_zone_chunks
  below = v.offsets pair.zone out.inside

  abbrev again_at : ℕ → ZoneStateManager
  again_at offset =
      record (set_zone s pair.zone
        (record (s.state pair.zone) { state = active; chunk_offset = offset })) {
          active = s.active ++ pair.zone ∷ [];
          writes_occurring = (s.writes_occurring + u32 - 1) % u32;
        }

  again-GivenBack : (offset : ℕ) → offset < s.max_zone_chunks → GivenBack s pair (again_at offset)
  again-GivenBack offset h = record {
    valid =
        Move-IsValid s pair.zone _ _ s.free _ v
          (returned s v pair.zone out.inside out.claimed offset h);
    others = λ j ne. ground arith;
    one_less = one_write_less s v pair.zone out.inside out.claimed;
    chunks = refl;
    zones = refl;
    free_kept = refl;
    limit = refl;
  }

  -- zsm_failed_to_write of an outstanding location, in a valid state: the zone is active again, behind
  -- the others, at the same chunk; the state is valid, one write less is counted and no other zone
  -- changes. No assertion fails.
  pub failed_to_write_correct : Returns (Unwritten s pair) (failed_to_write asserts q s pair)
  unfolding failed_to_write
  failed_to_write_correct = check_written-Returns (
      check-Returns asserts (ltb (s.state pair.zone).chunk_offset s.max_zone_chunks)
        (ground (arith, below))
        (rw (q.push_tail_lem s.active pair.zone) (
          returns (record {
            back = again-GivenBack (s.state pair.zone).chunk_offset below;
            again = (ground arith, ground (arith, out.offset), refl);
          }))))

  abbrev closed_state : ZoneStateManager
  closed_state =
      record (set_zone s pair.zone
        (record (s.state pair.zone) { state = full; chunk_offset = 0 })) {
          writes_occurring = (s.writes_occurring + u32 - 1) % u32;
        }

  closed-GivenBack : GivenBack s pair closed_state
  closed-GivenBack = record {
    valid =
        Move-IsValid s pair.zone _ s.active s.free _ v
          (closed s v pair.zone out.inside out.claimed (omega (arith, below)));
    others = λ j ne. ground arith;
    one_less = one_write_less s v pair.zone out.inside out.claimed;
    chunks = refl;
    zones = refl;
    free_kept = refl;
    limit = refl;
  }

  next_offset : ((s.state pair.zone).chunk_offset + 1) % u32 ≡ pair.chunk_offset + 1
  next_offset = omega (arith, below, v.chunks_fit, out.offset)

  -- The state before close_zone.
  abbrev filled : ZoneStateManager
  filled =
      record (set_zone s pair.zone (record (s.state pair.zone) {
        chunk_offset = ((s.state pair.zone).chunk_offset + 1) % u32;
      })) { writes_occurring = (s.writes_occurring + u32 - 1) % u32 }

  close_zone-ok : (zbd : Zbd) → Finishes zbd s → close_zone zbd filled pair.zone ≡ (0, closed_state)
  unfolding close_zone
  close_zone-ok zbd works =
      let open_still : is (filled.state pair.zone).state full ≡ false =
        ground (arith, out.claimed) in
      let zone : filled.state pair.zone ≡ record (s.state pair.zone) {
        chunk_offset = ((s.state pair.zone).chunk_offset + 1) % u32;
      } =
        ground arith in
      rw (open_still, works, zone, update-update s.state pair.zone)

  -- zsm_return_active_zone of an outstanding location, in a valid state, where the command that
  -- finishes a zone succeeds, returns 0 and leaves a valid state with one write less, in which no other
  -- zone changed. The zone is active again at its next chunk, behind the other active zones, or full
  -- where that was its last chunk.
  pub return_active_zone_correct :
      (zbd : Zbd)
      → Finishes zbd s
      → Returns (λ r. (r.0 ≡ 0) × Written s pair r.1) (return_active_zone asserts q zbd s pair)
  unfolding return_active_zone
  return_active_zone_correct zbd works = check_written-Returns (
      Returns-if (((s.state pair.zone).chunk_offset + 1) % u32 == s.max_zone_chunks)
        (λ end. rw (close_zone-ok zbd works) (
          returns (
            refl,
            record {
              back = closed-GivenBack;
              more = λ h. absurd (ground (arith, next_offset));
              last = λ h. (ground arith, refl);
            },
          )))
        (λ not_end. rw (q.push_tail_lem s.active pair.zone) (
          returns (
            refl,
            record {
              back =
                  again-GivenBack (((s.state pair.zone).chunk_offset + 1) % u32)
                    (ground (arith, next_offset, below, out.offset));
              more = λ h. (ground arith, ground (arith, next_offset), refl);
              last = λ h. absurd (ground (arith, next_offset));
            },
          ))))
