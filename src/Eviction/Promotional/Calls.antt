-- ===== src/Eviction/Promotional/Calls.antt =====
-- src/eviction/promotional.c: what the two calls of the policy do to the order of the zones.
use zncache.Base.{
  subst, ap, ℕ, ◌+◌, ◌-◌, ◌%◌, ◌<◌, ◌≡◌, refl, arith, inl, inr, Bool, Bool-cases, true, false,
  Option, ◌⊎◌, List, [], ◌∷◌, ◌==◌, if◌then◌else◌, u32, length, Returns, returns, Returns-bind,
  List-cases,
}
use zncache.Glib.{Links, Tables}
use zncache.Zones.{ZnPair}
use zncache.Eviction.{IoType, read, write}
use zncache.Eviction.Lru.Queue.{elements, moved_last, listed}
use zncache.Eviction.Lru.Moves.{IsLinked, IsFresh, append_correct, promote_correct, forget_correct}
use zncache.Eviction.Promotional.{Promotional, update, get_zone_to_evict, evict_popped, no_zone}

-- The zones in the queue, the one to evict first.
abbrev pub zones : Promotional → List ℕ
zones p = elements p.lru.queue

-- The policy after a call: its links agree, and the zones are in the given order.
pub record Keeps (p : Promotional) (order : List ℕ) (t : Promotional) : Type 0 where
  pub linked : IsLinked t.lru
  pub order_is : zones t ≡ order
  pub chunks : t.zone_max_chunks ≡ p.zone_max_chunks

-- The order of the zones after a use.
abbrev pub after_use : Promotional → ZnPair → IoType → List ℕ
after_use p location write =
    if location.chunk_offset + 1 == p.zone_max_chunks
    then moved_last location.zone (zones p)
    else zones p
after_use p location read =
    if listed location.zone (zones p) then moved_last location.zone (zones p) else zones p

-- A write that fills a zone finds the zone outside the queue.
abbrev pub IsNewZone : Promotional → ZnPair → IoType → Type 0
IsNewZone p location write =
    location.chunk_offset + 1 ≡ p.zone_max_chunks → listed location.zone (zones p) ≡ false
IsNewZone p location read = Unit {0}

module _ (links : Links) (tables : Tables (Option ℕ)) where
  -- An update keeps the links and the table in agreement. A write of the last chunk of a zone puts the
  -- zone last, a read of a zone in the queue moves it to the end, and any other call changes nothing.
  pub update_correct :
      (p : Promotional) (fresh : ℕ) (location : ZnPair) (io_type : IoType)
      → IsLinked p.lru
      → IsFresh p.lru fresh location.zone
      → IsNewZone p location io_type
      → location.chunk_offset < p.zone_max_chunks
      → p.zone_max_chunks < u32
      → Returns
          (Keeps p (after_use p location io_type))
          (update links tables p fresh location io_type)
  unfolding update
  update_correct p fresh location write v free new inside fits =
      elim (Bool-cases (location.chunk_offset + 1 == p.zone_max_chunks)) [
        | inl last ↦
            let here : (location.chunk_offset == (p.zone_max_chunks + u32 - 1) % u32) ≡ true =
              ground (arith, last, inside, fits) in
            let l =
              append_correct tables links p.lru fresh location.zone v free
                (new (ground (arith, last))) in
            rw (last, here) (returns (record { linked = l.0; order_is = l.1; chunks = refl }))
        | inr more ↦
            let here : (location.chunk_offset == (p.zone_max_chunks + u32 - 1) % u32) ≡ false =
              ground (arith, more, inside, fits) in
            rw (more, here) (returns (record { linked = v; order_is = refl; chunks = refl }))
      ]
  update_correct p fresh location read v free new inside fits =
      Returns-bind (promote_correct tables links p.lru fresh location.zone v free)
        λ t l. returns (record { linked = l.0; order_is = l.1; chunks = refl })

  -- The first zone of a queue is evicted.
  evict_popped-Keeps :
      (n zone : ℕ) (rest : List (ℕ × ℕ)) (p : Promotional)
      → p.lru.queue ≡ (n, zone) ∷ rest
      → IsLinked p.lru
      → ((evict_popped links tables p (links.pop_head p.lru.queue)).0 ≡ zone)
        × Keeps p (elements rest) (evict_popped links tables p (links.pop_head p.lru.queue)).1
  unfolding evict_popped
  evict_popped-Keeps n zone rest p e v =
      let v' : IsLinked (record { queue = (n, zone) ∷ rest; nodes = p.lru.nodes }) =
        subst (λ q. IsLinked (record { queue = q; nodes = p.lru.nodes })) e v in
      let l = forget_correct tables links n zone rest p.lru.nodes v' in
      rw (e, links.pop_head-cons n zone rest)
        (refl, record { linked = l.0; order_is = l.1; chunks = refl })

  -- The zone to evict is the first of the queue and leaves it. There is none where the queue is empty or
  -- its mutex is taken, and then nothing changes.
  pub get_zone_to_evict_correct :
      (locked_by_us : Bool) (p : Promotional)
      → IsLinked p.lru
      → length p.lru.queue < u32
      → ((get_zone_to_evict links tables locked_by_us p ≡ (no_zone, p))
          × ((locked_by_us ≡ false) ⊎ (zones p ≡ [])))
        ⊎ ((zone : ℕ) × (rest : List ℕ) × (zones p ≡ zone ∷ rest)
            × (locked_by_us ≡ true)
            × ((get_zone_to_evict links tables locked_by_us p).0 ≡ zone)
            × Keeps p rest (get_zone_to_evict links tables locked_by_us p).1)
  unfolding get_zone_to_evict
  get_zone_to_evict_correct false p v fits = inl (refl, inl refl)
  get_zone_to_evict_correct true p v fits = elim (List-cases p.lru.queue) [
    | inl e ↦ inl (rw (links.get_length_lem p.lru.queue, e) refl, inr (ap elements e))
    | inr ((n, zone), rest, e) ↦
        let some_there : (links.get_length p.lru.queue == 0) ≡ false =
          ground (arith, links.get_length_lem p.lru.queue, ap length e) in
        let taken = evict_popped-Keeps n zone rest p e v in
        inr (
          zone,
          elements rest,
          ap elements e,
          refl,
          rw some_there (taken.0),
          rw some_there (taken.1),
        )
  ]
