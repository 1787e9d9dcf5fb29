-- ===== src/Zones/Numbers.antt =====
-- src/zone_state_manager.c: the counters, and zsm_mark_chunk_invalid.
use zncache.Base.{
  ℕ, zero, suc, ◌+◌, ◌≤◌, ◌<◌, ◌≡◌, ◌≢◌, refl, arith, Bool, List, [], ◌∷◌, ◌++◌, u32, length,
  length-append,
}
use native.Mathlib.Numerals.{add-one}
use zncache.Glib.{Queues}
use zncache.Zones.{full, ZnPair, ZoneStateManager}
use zncache.Zones.Calls.{
  full_loop, get_num_active_zones, get_num_free_zones, get_num_full_zones, get_num_invalid_chunks,
  mark_chunk_invalid,
}
use zncache.Zones.Counts.{count_in, count_in-le}
use zncache.Zones.Invariant.{IsValid}
use zncache.Zones.Keep.{relisted-IsValid}

full_loop-count :
    (n i k number : ℕ) (s : ZoneStateManager)
    → i + n ≡ k
    → k < u32
    → number ≡ count_in full i s.state
    → full_loop n i number s ≡ count_in full k s.state
unfolding full_loop
full_loop-count zero i k number s e h c = let e' : i ≡ k = omega arith in rw (← e') c
full_loop-count (suc n) i k number s e h c =
    let below : count_in full i s.state ≤ i = count_in-le full i s.state in
    full_loop-count n (i + 1) k _ s (omega arith) h (ground (arith, add-one i, below))

-- In a valid state the three counters account for every zone of the disk, and none of them wraps.
pub numbers_total :
    (asserts : Bool) (q : Queues) (s : ZoneStateManager)
    → IsValid s
    → get_num_active_zones asserts q s + get_num_free_zones asserts q s + get_num_full_zones s
      ≡ s.num_zones
unfolding get_num_active_zones get_num_free_zones get_num_full_zones
numbers_total asserts q s v =
    let filled = full_loop-count s.num_zones 0 s.num_zones 0 s (omega arith) v.zones_fit refl in
    omega (
      arith,
      filled,
      q.get_length_lem s.active,
      q.get_length_lem s.free,
      v.total,
      v.capped,
      v.limit_fits,
      v.zones_fit,
    )

pub mark_chunk_invalid-IsValid :
    (asserts : Bool) (q : Queues) (s : ZoneStateManager) (pair : ZnPair)
    → IsValid s
    → pair.zone < s.num_zones
    → IsValid (mark_chunk_invalid asserts q s pair)
unfolding mark_chunk_invalid
mark_chunk_invalid-IsValid asserts q s pair v inside =
    relisted-IsValid s pair.zone (q.push_tail (s.state pair.zone).invalid pair.chunk_offset) v
      inside

-- zsm_mark_chunk_invalid keeps the state valid, adds one to the number of invalid chunks of the zone,
-- while there are less than 2^32 - 1, and changes no other zone.
pub mark_chunk_invalid_correct :
    (asserts : Bool) (q : Queues) (s : ZoneStateManager) (pair : ZnPair)
    → IsValid s
    → pair.zone < s.num_zones
    → length (s.state pair.zone).invalid + 1 < u32
    → IsValid (mark_chunk_invalid asserts q s pair)
      × (get_num_invalid_chunks asserts q (mark_chunk_invalid asserts q s pair) pair.zone
          ≡ get_num_invalid_chunks asserts q s pair.zone + 1)
      × ((j : ℕ) → j ≢ pair.zone → (mark_chunk_invalid asserts q s pair).state j ≡ s.state j)
unfolding mark_chunk_invalid get_num_invalid_chunks
mark_chunk_invalid_correct asserts q s pair v inside room =
    let z = s.state pair.zone in
    (
      mark_chunk_invalid-IsValid asserts q s pair v inside,
      ground (arith, one_more z.invalid pair.chunk_offset room),
      λ j ne. ground arith,
    )
  where
    one_more :
        (l : List ℕ) (x : ℕ)
        → length l + 1 < u32
        → q.get_length (q.push_tail l x) ≡ q.get_length l + 1
    one_more l x h =
        rw (q.push_tail_lem l x, q.get_length_lem l, q.get_length_lem (l ++ x ∷ []))
          (omega (arith, length-append l (x ∷ [])))
