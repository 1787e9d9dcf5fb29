-- ===== src/Zones/Active.antt =====
-- src/zone_state_manager.c: zsm_get_active_zone.
use zncache.Base.{
  check-Returns, check_holds, ℕ, ◌+◌, ◌%◌, ◌<◌, ◌≡◌, refl, ◌≢◌, ◌⊎◌, inl, inr, ap, ◌∙◌, arith, Bool,
  false, some, List, [], ◌∷◌, ◌++◌, ltb, leb, ◌==◌, ◌&&◌, ◌||◌, u32, length, length-append, ok,
  Returns, returns, Returns-if, List-cases, if◌then◌else◌,
}
use zncache.Glib.{Queues}
use zncache.Zones.{
  free, active, write_occuring, ZnPair, ZoneStateManager, Zbd, set_zone, on_zns, open_zone,
}
use zncache.Zones.Calls.{
  ActiveZone, success, retry, error, evict, take_popped, open_popped, take_active, get_active_zone,
}
use zncache.Zones.Invariant.{IsValid}
use zncache.Zones.Keep.{Move-IsValid, first_active, first_free, taken, opened}

-- The zone of the pair is claimed for a write: it was active or free and is being written to, at its
-- next chunk, and no other zone changed.
pub record Claimed (s : ZoneStateManager) (pair : ZnPair) (t : ZoneStateManager) : Type 0 where
  pub valid : IsValid t
  pub inside : pair.zone < s.num_zones
  pub was : ((s.state pair.zone).state ≡ active) ⊎ ((s.state pair.zone).state ≡ free)
  pub claimed : (t.state pair.zone).state ≡ write_occuring
  pub offset : (t.state pair.zone).chunk_offset ≡ pair.chunk_offset
  pub continued :
      (s.state pair.zone).state ≡ active → pair.chunk_offset ≡ (s.state pair.zone).chunk_offset
  pub started : (s.state pair.zone).state ≡ free → pair.chunk_offset ≡ 0
  pub others : (j : ℕ) → j ≢ pair.zone → t.state j ≡ s.state j
  pub queues : length t.active + length t.free + 1 ≡ length s.active + length s.free
  pub one_more : t.writes_occurring ≡ s.writes_occurring + 1
  pub chunks : t.max_zone_chunks ≡ s.max_zone_chunks
  pub zones : t.num_zones ≡ s.num_zones

-- What the result says, where the zone command succeeds.
abbrev pub Answers : ZoneStateManager → ActiveZone × ZoneStateManager → Type 0
Answers s (success pair, t) = Claimed s pair t
Answers s (retry, t) =
    (t ≡ s)
    × (s.active ≡ [])
    × (((s.free ≡ []) × (0 < s.writes_occurring)) ⊎ (s.writes_occurring ≡ s.max_nr_active_zones))
Answers s (evict, t) = (t ≡ s) × (s.active ≡ []) × (s.free ≡ []) × (s.writes_occurring ≡ 0)
Answers s (error, t) = ⊥

-- The zone commands that open a zone succeed.
abbrev pub Opens : Zbd → ZoneStateManager → Type 0
Opens zbd s = (wp : ℕ) → on_zns s.backend_type (zbd.open_zones wp 1) ≡ 0

module _ (asserts : Bool) (q : Queues) where
  abbrev pair_of : ZoneStateManager → ℕ → ZnPair
  pair_of s i = record {
    zone = (s.state i).zone_id;
    chunk_offset = (s.state i).chunk_offset;
    id = 0;
    in_use = false;
  }

  abbrev writing : ZoneStateManager → ℕ → List ℕ → ZoneStateManager
  writing s i rest = record (set_zone s i (record (s.state i) { state = write_occuring })) {
    active = rest;
    writes_occurring = (s.writes_occurring + 1) % u32;
  }

  take_active-ok :
      (s : ZoneStateManager) (i : ℕ) (rest : List ℕ)
      → IsValid s
      → s.active ≡ i ∷ rest
      → take_active asserts q s ≡ ok (success (pair_of s i), writing s i rest)
  unfolding take_popped
  take_active-ok s i rest v e =
      let popped : q.pop_head s.active ≡ (some i, rest) =
        ap q.pop_head e ∙ q.pop_head-cons i rest in
      let (inside, was) = first_active s v i rest e in
      ap (take_popped asserts q s) popped ∙ check_holds asserts _ (ground arith)

  take_active-Claimed :
      (s : ZoneStateManager) (i : ℕ) (rest : List ℕ)
      → IsValid s
      → s.active ≡ i ∷ rest
      → Claimed s (pair_of s i) (writing s i rest)
  take_active-Claimed s i rest v e =
      let (inside, was) = first_active s v i rest e in
      let id = v.ids i inside in
      record {
        valid = Move-IsValid s i _ rest s.free _ v (taken s v i rest e);
        inside = rw id inside;
        was = rw id (inl was);
        claimed = ground (arith, id);
        offset = ground (arith, id);
        continued = λ c. ground (arith, id);
        started = λ f. ground (arith, id);
        others = λ j ne. ground (arith, id);
        queues = omega (arith, ap length e);
        one_more = omega (arith, ap length e, v.capped, v.limit_fits);
        chunks = refl;
        zones = refl;
      }

  -- The state after the zone `i` was opened.
  abbrev opened_state : ZoneStateManager → ℕ → List ℕ → ZoneStateManager
  opened_state s i rest =
      record (set_zone s i (record (s.state i) { state = active; chunk_offset = 0 })) {
        active = s.active ++ i ∷ [];
        free = rest;
      }

  open_zone-ok :
      (zbd : Zbd) (s : ZoneStateManager) (i : ℕ) (rest : List ℕ)
      → IsValid s
      → Opens zbd s
      → s.free ≡ i ∷ rest
      → length s.active + s.writes_occurring < s.max_nr_active_zones
      → open_zone asserts q zbd (record s { free = rest }) i ≡ ok (0, opened_state s i rest)
  unfolding open_zone
  open_zone-ok zbd s i rest v works e below =
      let (inside, was) = first_free s v i rest e in
      let fits : leb s.max_nr_active_zones ((q.get_length s.active + s.writes_occurring) % u32)
          ≡ false =
        ground (arith, q.get_length_lem s.active, v.limit_fits) in
      check_holds asserts _ (ground arith) ∙ rw (fits, works, q.push_tail_lem s.active i)

  open_popped-Claimed :
      (zbd : Zbd) (s : ZoneStateManager) (i : ℕ) (rest : List ℕ)
      → IsValid s
      → Opens zbd s
      → s.active ≡ []
      → s.free ≡ i ∷ rest
      → s.writes_occurring < s.max_nr_active_zones
      → Returns (Answers s) (open_popped asserts q zbd s (some i, rest))
  unfolding open_popped
  open_popped-Claimed zbd s i rest v works none_active e below =
      let (inside, was) = first_free s v i rest e in
      let chunk : 0 < s.max_zone_chunks = omega (arith, v.offsets i inside) in
      let room : length s.active + s.writes_occurring < s.max_nr_active_zones =
        omega (arith, ap length none_active) in
      let o = opened_state s i rest in
      let valid =
        Move-IsValid s i _ (s.active ++ i ∷ []) rest s.writes_occurring v
          (opened s v i rest e room chunk) in
      let first : o.active ≡ i ∷ [] = ap (λ (l : List ℕ). l ++ i ∷ []) none_active in
      let here : (o.state i).zone_id ≡ i = valid.ids i inside in
      let claim = take_active-Claimed o i [] valid first in
      check-Returns asserts _ (ground arith) (
        rw (open_zone-ok zbd s i rest v works e room, take_active-ok o i [] valid first)
          (returns (record {
            valid = claim.valid;
            inside = claim.inside;
            was = rw here (inr was);
            claimed = claim.claimed;
            offset = claim.offset;
            continued = λ c. ground (arith, here);
            started = λ f. ground arith;
            others = λ j ne. ground (arith, here);
            queues = omega (
              arith,
              claim.queues,
              ap length e,
              ap length none_active,
              length-append s.active (i ∷ []),
            );
            one_more = claim.one_more;
            chunks = refl;
            zones = refl;
          })))

  some_active_case :
      (s : ZoneStateManager)
      → IsValid s
      → s.active ≢ []
      → Returns (Answers s) (take_active asserts q s)
  some_active_case s v ne = elim (List-cases s.active) [
    | inl e ↦ absurd (ne e)
    | inr (i, rest, e) ↦
        rw (take_active-ok s i rest v e) (returns (take_active-Claimed s i rest v e))
  ]

  -- The branch without an active zone.
  no_active :
      (zbd : Zbd) (s : ZoneStateManager)
      → IsValid s
      → Opens zbd s
      → s.active ≡ []
      → (s.free ≡ [] → 0 < s.writes_occurring)
      → Returns (Answers s) (
          if ltb (length s.active + s.writes_occurring) s.max_nr_active_zones
            && ltb 0 (length s.free)
          then open_popped asserts q zbd s (q.pop_head s.free)
          else ok (retry, s))
  no_active zbd s v works none_active busy = elim (List-cases s.free) [
    | inl none_free ↦
        let stuck : ltb 0 (length s.free) ≡ false = ground (arith, none_free) in
        Returns-if
          (ltb (length s.active + s.writes_occurring) s.max_nr_active_zones
            && ltb 0 (length s.free))
          (λ both. absurd (ground arith))
          (λ _. returns {v = (retry, s)} (refl, none_active, inl (none_free, busy none_free)))
    | inr (i, rest, e) ↦
        Returns-if
          (ltb (length s.active + s.writes_occurring) s.max_nr_active_zones
            && ltb 0 (length s.free))
          (λ both.
            rw (ap q.pop_head e ∙ q.pop_head-cons i rest)
              (open_popped-Claimed zbd s i rest v works none_active e (ground arith)))
          (λ none_left.
            let limit : s.writes_occurring ≡ s.max_nr_active_zones =
              ground (arith, v.capped, ap length none_active, ap length e) in
            returns {v = (retry, s)} (refl, none_active, inr limit))
  ]

  -- zsm_get_active_zone on a valid state, where the command that opens a zone succeeds. It may return a
  -- location: the next chunk of an active zone, or the first one of a free zone; then the state is
  -- valid, the zone is marked as being written to, no other zone changed and one more write is counted.
  -- Otherwise the state is as it was: a retry is asked for only where no zone is active, and none is
  -- free while a write is going on or as many writes are going on as zones may be active; an eviction only where no zone is
  -- active or free and no write is going on. The call never ends with an error or a failed assertion.
  pub get_active_zone_correct :
      (zbd : Zbd) (s : ZoneStateManager)
      → IsValid s
      → Opens zbd s
      → Returns (Answers s) (get_active_zone asserts q zbd s)
  unfolding get_active_zone
  get_active_zone_correct zbd s v works =
      let la : q.get_length s.active ≡ length s.active =
        omega (arith, q.get_length_lem s.active, v.capped, v.limit_fits) in
      let lf : q.get_length s.free ≡ length s.free =
        omega (arith, q.get_length_lem s.free, v.total, v.zones_fit) in
      let sum : (length s.active + s.writes_occurring) % u32
          ≡ length s.active + s.writes_occurring =
        omega (arith, v.capped, v.limit_fits) in
      rw (la, lf, sum)
        (Returns-if (length s.active + s.writes_occurring == 0 && length s.free == 0)
          (λ idle. returns {v = (evict, s)} (refl, ground arith, ground arith, ground arith))
          (λ busy.
            check-Returns asserts
              (ltb 0 (length s.active + s.writes_occurring) || ltb 0 (length s.free)) (ground arith)
              (Returns-if (length s.active == 0)
                (λ none_active.
                  no_active zbd s v works (ground arith)
                    (λ none_free. ground (arith, busy, none_active, ap length none_free)))
                (λ some_active. some_active_case s v (ground arith)))))
