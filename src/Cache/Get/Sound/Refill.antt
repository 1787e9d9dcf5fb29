-- ===== src/Cache/Get/Sound/Refill.antt =====
-- src/cache.c: the zones of the cache after a chunk was claimed and given back.
use zncache.Base.{
  ℕ, ◌+◌, ◌≤◌, ◌<◌, ◌≡◌, ◌≢◌, sym, ap, ◌∙◌, subst, arith, ◌⊎◌, inl, inr, Bool-cases, true, false,
  List, [], ◌∷◌, ◌++◌, length, length-append, eq_or_ne, ◌==◌,
}
use zncache.Zones.{full, active, ZnPair, ZoneStateManager}
use zncache.Zones.Active.{Claimed}
use zncache.Zones.Return.{GivenBack, Written, Unwritten}
use zncache.Eviction.{write}
use zncache.Eviction.Lru.Queue.{listed, without_absent, moved_last}
use zncache.Eviction.Lru.Ordering.{listed-append}
use zncache.Eviction.Promotional.{Promotional}
use zncache.Eviction.Promotional.Calls.{zones, after_use}
use zncache.Cache.Get.Ready.{WrittenAt}

-- What the zones and the policy say of each other.
pub record Tracks (order : List ℕ) (s : ZoneStateManager) : Type 0 where
  pub all_full : (z : ℕ) → listed z order ≡ true → (z < s.num_zones) × ((s.state z).state ≡ full)
  pub queued : (z : ℕ) → z < s.num_zones → (s.state z).state ≡ full → listed z order ≡ true
  pub room : length order + length s.active + length s.free + s.writes_occurring ≤ s.num_zones

module _ (order : List ℕ) (s t u : ZoneStateManager) (l : ZnPair) (k : Tracks order s)
    (m : Claimed s l t) where
  unlisted : listed l.zone order ≡ false
  unlisted = elim (Bool-cases (listed l.zone order)) [
    | inr absent ↦ absent
    | inl there ↦
        let (inside, was) = k.all_full l.zone there in elim (m.was) [ inl a ↦ cc | inr f ↦ cc ]
  ]

  module _ (back : GivenBack t l u) where
    others : (z : ℕ) → z ≢ l.zone → u.state z ≡ s.state z
    others z ne = back.others z ne ∙ m.others z ne

    number : u.num_zones ≡ s.num_zones
    number = back.zones ∙ m.zones

    -- The zone is active again: the policy has what it had.
    again-Tracks :
        (u.state l.zone).state ≡ active → u.active ≡ t.active ++ l.zone ∷ [] → Tracks order u
    again-Tracks now queue = record {
      all_full = λ z there.
          let ne : z ≢ l.zone = λ same. cc (ap (λ i. listed i order) same, unlisted) in
          let (inside, was) = k.all_full z there in (rw number inside, rw (others z ne) was);
      queued = λ z inside was.
          let ne : z ≢ l.zone = λ same. cc (ap (λ i. (u.state i).state) same) in
          k.queued z (rw (← number) inside) (rw (← others z ne) was);
      room = omega (
        arith,
        ap length queue,
        length-append t.active (l.zone ∷ []),
        ap length back.free_kept,
        back.one_less,
        m.one_more,
        m.queues,
        k.room,
        number,
      );
    }

    -- The zone is full: the policy has it as its last.
    full-Tracks :
        (u.state l.zone).state ≡ full → u.active ≡ t.active → Tracks (order ++ l.zone ∷ []) u
    full-Tracks now queue = record {
      all_full = λ z there. elim (eq_or_ne z l.zone) [
        | inl same ↦ rw (number, same) (m.inside, now)
        | inr ne ↦
            let before : listed z order ≡ true =
              ground (arith, listed-append l.zone z order, there, ne) in
            let (inside, was) = k.all_full z before in (rw number inside, rw (others z ne) was)
      ];
      queued = λ z inside was. listed-append l.zone z order ∙ (elim (eq_or_ne z l.zone) [
        | inl same ↦ ground (arith, same)
        | inr ne ↦
            let before = k.queued z (rw (← number) inside) (rw (← others z ne) was) in
            ground (arith, ne, before)
      ]);
      room = omega (
        arith,
        length-append order (l.zone ∷ []),
        ap length queue,
        ap length back.free_kept,
        back.one_less,
        m.one_more,
        m.queues,
        k.room,
        number,
      );
    }

    -- A chunk that was written before is one still.
    placed_still :
        (z chunk : ℕ)
        → WrittenAt (s.state z) chunk
        → ((u.state l.zone).state ≡ full)
          ⊎ (((u.state l.zone).state ≡ active) × (l.chunk_offset ≤ (u.state l.zone).chunk_offset))
        → WrittenAt (u.state z) chunk
    placed_still z chunk w now = elim (eq_or_ne z l.zone) [
      | inr ne ↦ subst (λ zone. WrittenAt zone chunk) (sym (others z ne)) w
      | inl same ↦
          let here = subst (λ i. WrittenAt (s.state i) chunk) same w in
          subst (λ i. WrittenAt (u.state i) chunk) (sym same)
            (elim here [
              | inl was_full ↦ elim (m.was) [ inl a ↦ cc | inr f ↦ cc ]
              | inr (was_active, past) ↦ elim now [
                | inl is_full ↦ inl is_full
                | inr (is_active, there) ↦
                    inr (is_active, omega (arith, past, m.continued was_active, there))
              ]
            ])
    ]

  -- The order of the policy after a successful write, and where the written chunk stands.
  pub Written-Tracks :
      (p : Promotional)
      → Written t l u
      → zones p ≡ order
      → p.zone_max_chunks ≡ t.max_zone_chunks
      → l.chunk_offset < t.max_zone_chunks
      → Tracks (after_use p l write) u
        × WrittenAt (u.state l.zone) l.chunk_offset
        × ((z chunk : ℕ) → WrittenAt (s.state z) chunk → WrittenAt (u.state z) chunk)
  Written-Tracks p w same_order agree inside =
      elim (eq_or_ne (l.chunk_offset + 1) t.max_zone_chunks) [
        | inl last ↦
            let (now, queue) = w.last last in
            let test : (l.chunk_offset + 1 == p.zone_max_chunks) ≡ true =
              ground (arith, last, agree) in
            let moved : moved_last l.zone order ≡ order ++ l.zone ∷ [] =
              ap (λ (ys : List ℕ). ys ++ l.zone ∷ []) (without_absent l.zone order unlisted) in
            (
              rw (test, same_order, moved) (full-Tracks w.back now queue),
              inl now,
              λ z chunk was. placed_still w.back z chunk was (inl now),
            )
        | inr not_last ↦
            let (now, at, queue) = w.more (omega arith) in
            let test : (l.chunk_offset + 1 == p.zone_max_chunks) ≡ false =
              ground (arith, not_last, agree) in
            (
              rw (test, same_order) (again-Tracks w.back now queue),
              inr (now, omega (arith, at)),
              λ z chunk was. placed_still w.back z chunk was (inr (now, omega (arith, at))),
            )
      ]

  -- The same of a write that failed.
  pub Unwritten-Tracks :
      Unwritten t l u
      → Tracks order u × ((z chunk : ℕ) → WrittenAt (s.state z) chunk → WrittenAt (u.state z) chunk)
  Unwritten-Tracks w =
      let (now, at, queue) = w.again in
      (
        again-Tracks w.back now queue,
        λ z chunk was. placed_still w.back z chunk was (inr (now, omega (arith, at))),
      )
