-- ===== src/Zones/System/Safety.antt =====
-- src/zone_state_manager.c under threads: what holds in every state that the calls can reach.
use zncache.Base.{
  ℕ, ◌+◌, ◌<◌, ◌≡◌, ◌≢◌, ◌⊎◌, inl, inr, eq_or_ne, refl, ap, sym, subst, ◌∙◌, arith, Bool, true,
  false, List, [], ◌∷◌, ◌++◌, ok, length, length-append, Returns-at,
}
use zncache.Glib.{Queues}
use zncache.Zones.{full, write_occuring, Zone, ZnPair, ZoneStateManager, Zbd}
use zncache.Zones.Calls.{
  ActiveZone, success, retry, error, evict, get_active_zone, mark_chunk_invalid,
}
use zncache.Zones.Numbers.{mark_chunk_invalid-IsValid}
use zncache.Zones.Invariant.{IsValid}
use zncache.Zones.Active.{Claimed, Answers, Opens, get_active_zone_correct}
use zncache.Zones.Return.{
  Outstanding, GivenBack, Written, Unwritten, return_active_zone_correct, failed_to_write_correct,
}
use zncache.Zones.Evict.{Evicted, zone_evict_correct, Hidden, zone_evict_hides}
use zncache.Zones.System.{
  System, Step, claim, finish, give_up, reset, no_zone, fail_reset, invalidate, Reach, here, next,
  Apart, Exclusive, AllOutstanding, IsSafe, mark_written, unmark_zone,
}
use zncache.Zones.System.Writers.{
  AllOutstanding-keep, AllOutstanding-Apart, not_writing-Apart, AllOutstanding-split,
  Exclusive-split,
}

claim-IsSafe :
    (y : System) (pair : ZnPair) (t : ZoneStateManager)
    → IsSafe y
    → Claimed y.zones pair t
    → IsSafe (record y { zones = t; writers = pair ∷ y.writers })
claim-IsSafe y pair t v c =
    let idle : (y.zones.state pair.zone).state ≢ write_occuring = ground (arith, c.was) in
    record {
      valid = c.valid;
      outstanding = (
        record {
          inside = ground (arith, c.inside, c.zones);
          claimed = c.claimed;
          offset = c.offset;
        },
        AllOutstanding-keep y.zones t y.writers c.zones
            (λ j w. c.others j (λ e. idle (ap (λ (i : ℕ). (y.zones.state i).state) (sym e) ∙ w)))
            v.outstanding,
      );
      exclusive = (not_writing-Apart y.zones pair.zone y.writers idle v.outstanding, v.exclusive);
      counted = omega (arith, c.one_more, v.counted);
      data_below = λ z k w. ground (
        arith,
        v.data_below z k w,
        c.others z,
        c.was,
        c.continued,
        c.started,
        c.zones,
        v.valid.unused pair.zone,
      );
    }

-- What a step that takes a writer from the list leaves of it.
module _ (y : System) (before after : List ZnPair) (pair : ZnPair) (t : ZoneStateManager)
    (v : IsSafe y) (e : y.writers ≡ before ++ (pair ∷ after)) where
  pub removed-Outstanding : Outstanding y.zones pair
  removed-Outstanding =
      (AllOutstanding-split y.zones before after pair
        (subst (AllOutstanding y.zones) e v.outstanding)).0

  removed_rest : AllOutstanding y.zones (before ++ after)
  removed_rest =
      (AllOutstanding-split y.zones before after pair
        (subst (AllOutstanding y.zones) e v.outstanding)).1

  removed-Exclusive : Apart pair.zone (before ++ after) × Exclusive (before ++ after)
  removed-Exclusive = Exclusive-split before after pair (subst Exclusive e v.exclusive)

  removed_length : length y.writers ≡ length (before ++ after) + 1
  removed_length =
      omega (arith, ap length e, length-append before (pair ∷ after), length-append before after)

  removed-IsSafe :
      (written : ℕ → ℕ → Bool)
      → GivenBack y.zones pair t
      → ((z c : ℕ)
          → written z c ≡ true
          → (z < t.num_zones) × (((t.state z).state ≡ full) ⊎ (c < (t.state z).chunk_offset)))
      → IsSafe (record { zones = t; writers = before ++ after; written = written })
  removed-IsSafe written b below = record {
    valid = b.valid;
    outstanding =
        AllOutstanding-Apart y.zones t pair.zone (before ++ after) b.zones b.others
          removed-Exclusive.0 removed_rest;
    exclusive = removed-Exclusive.1;
    counted = omega (arith, b.one_less, v.counted, removed_length);
    data_below = below;
  }

  finish-IsSafe :
      Written y.zones pair t
      → IsSafe
          (record { zones = t; writers = before ++ after; written = mark_written y.written pair })
  finish-IsSafe w =
      let out = removed-Outstanding in
      removed-IsSafe (mark_written y.written pair) w.back (λ z c m. ground (
        arith,
        v.data_below z c,
        w.back.others z,
        w.back.zones,
        w.more,
        w.last,
        out.inside,
        out.claimed,
        out.offset,
        v.valid.offsets pair.zone,
      ))

  give_up-IsSafe :
      Unwritten y.zones pair t → IsSafe (record y { zones = t; writers = before ++ after })
  give_up-IsSafe w =
      let out = removed-Outstanding in
      removed-IsSafe y.written w.back (λ z c m. ground (
        arith,
        v.data_below z c m,
        w.back.others z,
        w.back.zones,
        w.again,
        out.claimed,
        out.offset,
      ))

reset-IsSafe :
    (y : System) (i : ℕ) (t : ZoneStateManager)
    → IsSafe y
    → (y.zones.state i).state ≡ full
    → Evicted y.zones i t
    → IsSafe (record y { zones = t; written = unmark_zone y.written i })
reset-IsSafe y i t v was c = record {
  valid = c.valid;
  outstanding =
      AllOutstanding-keep y.zones t y.writers c.zones
        (λ j w. c.others j (λ e. ground (arith, w, was))) v.outstanding;
  exclusive = v.exclusive;
  counted = c.writes ∙ v.counted;
  data_below = λ z k w. ground (arith, v.data_below z k, c.others z, c.zones);
}

-- A step that changes lists of invalid chunks at most.
same-IsSafe :
    (y : System) (t : ZoneStateManager)
    → IsSafe y
    → IsValid t
    → t.num_zones ≡ y.zones.num_zones
    → t.writes_occurring ≡ y.zones.writes_occurring
    → ((j : ℕ) → (t.state j).state ≡ (y.zones.state j).state)
    → ((j : ℕ) → (t.state j).chunk_offset ≡ (y.zones.state j).chunk_offset)
    → IsSafe (record y { zones = t })
same-IsSafe y t v valid number writes states offsets = record {
  valid = valid;
  outstanding = keep y.writers v.outstanding;
  exclusive = v.exclusive;
  counted = writes ∙ v.counted;
  data_below = λ z k w. rw (number, states z, offsets z) (v.data_below z k w);
}
  where
    keep : (ps : List ZnPair) → AllOutstanding y.zones ps → AllOutstanding t ps
    keep [] all = tt
    keep (p ∷ ps) (out, all) = (
      record {
        inside = rw number (out.inside);
        claimed = states p.zone ∙ out.claimed;
        offset = offsets p.zone ∙ out.offset;
      },
      keep ps all,
    )

-- An answer that is no location leaves the zones as they were.
Answers-same :
    (s : ZoneStateManager) (answer : ActiveZone) (t : ZoneStateManager)
    → ((pair : ZnPair) → answer ≢ success pair)
    → Answers s (answer, t)
    → t ≡ s
Answers-same s (success pair) t other m = absurd (other pair refl)
Answers-same s retry t other m = m.0
Answers-same s evict t other m = m.0
Answers-same s error t other m = elim m [ ]

fail_reset-IsSafe :
    (y : System) (asserts : Bool) (q : Queues) (zbd : Zbd) (i answer : ℕ) (t : ZoneStateManager)
    (was : (y.zones.state i).state ≡ full)
    → IsSafe y
    → answer ≢ 0
    → Hidden asserts q zbd y.zones i was answer t
    → IsSafe (record y { zones = t })
fail_reset-IsSafe y asserts q zbd i answer t was v bad h =
    same-IsSafe y t v h.valid h.zones h.writes
      (λ j. elim (eq_or_ne j i) [
        | inl same ↦ rw same (h.full_where.1 bad ∙ sym was)
        | inr ne ↦ ap (λ (z : Zone). z.state) (h.others j ne)
      ])
      (λ j. elim (eq_or_ne j i) [
        | inl same ↦ rw same (ground (arith, h.offset, bad))
        | inr ne ↦ ap (λ (z : Zone). z.chunk_offset) (h.others j ne)
      ])

invalidate-IsSafe :
    (y : System) (asserts : Bool) (q : Queues) (pair : ZnPair)
    → IsSafe y
    → pair.zone < y.zones.num_zones
    → IsSafe (record y { zones = mark_chunk_invalid asserts q y.zones pair })
unfolding mark_chunk_invalid
invalidate-IsSafe y asserts q pair v inside =
    same-IsSafe y (mark_chunk_invalid asserts q y.zones pair) v
      (mark_chunk_invalid-IsValid asserts q y.zones pair v.valid inside) refl refl
      (λ j. ground arith) (λ j. ground arith)

pub Step-IsSafe :
    {asserts : Bool} {q : Queues} {y z : System} → Step asserts q y z → IsSafe y → IsSafe z
Step-IsSafe {asserts} {q} {y} (claim zbd pair t opens e) v =
    claim-IsSafe y pair t v
      (Returns-at (get_active_zone_correct asserts q zbd y.zones v.valid opens) e)
Step-IsSafe {asserts} {q} {y} (finish zbd before after pair t finishes w e) v =
    let out = removed-Outstanding y before after pair t v w in
    finish-IsSafe y before after pair t v w
      (Returns-at (return_active_zone_correct asserts q y.zones pair v.valid out zbd finishes) e).1
Step-IsSafe {asserts} {q} {y} (give_up before after pair t w e) v =
    let out = removed-Outstanding y before after pair t v w in
    give_up-IsSafe y before after pair t v w
      (Returns-at (failed_to_write_correct asserts q y.zones pair v.valid out) e)
Step-IsSafe {asserts} {q} {y} (reset zbd i t inside was resets e) v =
    reset-IsSafe y i t v was
      (Returns-at (zone_evict_correct asserts q zbd y.zones i was v.valid inside resets) e).1
Step-IsSafe {asserts} {q} {y} (no_zone zbd t answer opens none e) v =
    let same =
      Answers-same y.zones answer t none
        (Returns-at (get_active_zone_correct asserts q zbd y.zones v.valid opens) e) in
    subst (λ (s : ZoneStateManager). IsSafe (record y { zones = s })) (sym same) v
Step-IsSafe {asserts} {q} {y} (fail_reset zbd i answer t inside was bad fails e) v =
    elim (zone_evict_hides asserts q zbd y.zones i was answer v.valid inside fails) [
      | inl (on, failed, stops) ↦ cc (stops, e)
      | inr (quiet, call) ↦
          fail_reset-IsSafe y asserts q zbd i answer t was v bad (Returns-at call e).1
    ]
Step-IsSafe {asserts} {q} {y} (invalidate pair inside) v =
    invalidate-IsSafe y asserts q pair v inside

Reach-IsSafe :
    {asserts : Bool} {q : Queues} {start y : System}
    → IsSafe start
    → Reach asserts q start y
    → IsSafe y
Reach-IsSafe v here = v
Reach-IsSafe v (next r st) = Step-IsSafe st (Reach-IsSafe v r)

-- The system after zsm_init: no writers, no data.
abbrev pub initial : ZoneStateManager → System
initial s = record { zones = s; writers = []; written = λ z c. false }

initial-IsSafe : (s : ZoneStateManager) → IsValid s → s.writes_occurring ≡ 0 → IsSafe (initial s)
initial-IsSafe s v none = record {
  valid = v;
  outstanding = tt;
  exclusive = tt;
  counted = none;
  data_below = λ z c w. cc;
}

-- From a valid state with no writers, every interleaving of the calls of Step, by any number of threads, leads to a
-- safe state: the state is valid, each writer's location is marked as being written to, no two writers
-- are at one zone, the writes counted are as many as the writers, and data lies only in full zones and
-- below the next chunk of the others. Those are the calls of all functions that change the state, where the
-- commands that open and finish a zone succeed, each writer gives its location back once, and only full
-- zones are evicted; the command that resets a zone may fail.
pub initial-Reach-IsSafe :
    (asserts : Bool) (q : Queues) (s : ZoneStateManager) (y : System)
    → IsValid s
    → s.writes_occurring ≡ 0
    → Reach asserts q (initial s) y
    → IsSafe y
initial-Reach-IsSafe asserts q s y v none r = Reach-IsSafe (initial-IsSafe s v none) r

-- In every state that the calls of Step reach from a valid state with no writers, where the command that opens
-- a zone succeeds, a location that zsm_get_active_zone hands out holds no data that an eviction has not
-- reset, and no writer is at its zone.
pub claim_overwrites_nothing :
    (asserts : Bool) (q : Queues) (zbd : Zbd) (s : ZoneStateManager) (y : System) (pair : ZnPair)
    (t : ZoneStateManager)
    → IsValid s
    → s.writes_occurring ≡ 0
    → Reach asserts q (initial s) y
    → Opens zbd y.zones
    → get_active_zone asserts q zbd y.zones ≡ ok (success pair, t)
    → (y.written pair.zone pair.chunk_offset ≡ false) × Apart pair.zone y.writers
claim_overwrites_nothing asserts q zbd s y pair t v none r opens e =
    let safe = initial-Reach-IsSafe asserts q s y v none r in
    let c = Returns-at (get_active_zone_correct asserts q zbd y.zones safe.valid opens) e in
    (
      ground (
        arith,
        safe.data_below pair.zone pair.chunk_offset,
        c.was,
        c.continued,
        c.started,
        safe.valid.unused pair.zone,
      ),
      not_writing-Apart y.zones pair.zone y.writers (ground (arith, c.was)) safe.outstanding,
    )
