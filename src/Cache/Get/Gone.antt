-- ===== src/Cache/Get/Gone.antt =====
-- src/cache.c: the eviction of one zone, and of zones one after the other.
use zncache.Base.{
  ℕ, suc, ◌≡◌, ◌≢◌, refl, sym, ap, ◌∙◌, arith, inl, inr, true, false, Bool-cases, eq_or_ne,
  Option-cases, none, some, List, [], ◌∷◌, ◌++◌, length, length-append, ◌||◌, ◌==◌,
}
use mathlib.Core.List.{append_assoc}
use zncache.Glib.{assoc}
use zncache.Zones.{ZnPair}
use zncache.Zones.Evict.{Evicted}
use zncache.CacheMap.Invariant.{location_in, location_of, type_in, type_of, IsConsistent}
use zncache.CacheMap.{result_cond}
use zncache.CacheMap.Clear.{Cleared, empty-location, entry_at}
use zncache.Eviction.Lru.Queue.{listed}
use zncache.Eviction.Lru.Moves.{IsLinked, first_once}
use zncache.Eviction.Promotional.Calls.{zones}
use zncache.Cache.Get.{Cache}
use zncache.Cache.Get.Ready.{Ready, SameShape, SameShape-after, Evicts}

append-nil : (xs : List ℕ) → xs ≡ xs ++ []
append-nil [] = refl
append-nil (x ∷ xs) = ap (◌∷◌ x) (append-nil xs)

append-cons : (xs : List ℕ) (x : ℕ) (ys : List ℕ) → (xs ++ x ∷ []) ++ ys ≡ xs ++ x ∷ ys
append-cons [] x ys = refl
append-cons (z ∷ xs) x ys = ap (◌∷◌ z) (append-cons xs x ys)

-- A round that evicted one zone.
pub record OneGone {D : Type 0} (c : Cache D) (zone : ℕ) (c' : Cache D) : Type 0 where
  pub order : zones c.eviction_policy ≡ zone ∷ zones c'.eviction_policy
  pub cleared : Cleared c.cache_map c'.cache_map (λ z chunk. z == zone)
  pub evicted : Evicted c.zone_state zone c'.zone_state
  pub shape : SameShape c c'
  pub disk_kept : c'.disk ≡ c.disk

module _ {D : Type 0} (c c' : Cache D) (zone : ℕ) (one : OneGone c zone c') where
  OneGone-kept :
      (id : ℕ) (l : ZnPair)
      → location_of c.cache_map id ≡ some l
      → zone ≢ l.zone
      → location_of c'.cache_map id ≡ some l
  OneGone-kept id l e ne =
      ap location_in
        (one.cleared.kept id (λ k at. let same : k ≡ l = cc in rw same (ground (arith, ne))))
      ∙ e

  OneGone-nowhere :
      (id : ℕ) → location_of c.cache_map id ≡ none → location_of c'.cache_map id ≡ none
  OneGone-nowhere id e = ap location_in (one.cleared.kept id (λ k at. cc)) ∙ e

  OneGone-emptied :
      (id : ℕ) (l : ZnPair)
      → location_of c.cache_map id ≡ some l
      → zone ≡ l.zone
      → location_of c'.cache_map id ≡ none
  OneGone-emptied id l e same = empty-location _ (one.cleared.emptied id l e (ground (arith, same)))

  OneGone-before :
      (id : ℕ) (l : ZnPair)
      → location_of c'.cache_map id ≡ some l
      → (location_of c.cache_map id ≡ some l) × (zone ≢ l.zone)
  OneGone-before id l e = elim (Option-cases (location_of c.cache_map id)) [
    | inl nothing ↦ cc (OneGone-nowhere id nothing)
    | inr (k, at) ↦ elim (eq_or_ne zone k.zone) [
      | inl same ↦ cc (OneGone-emptied id k at same)
      | inr ne ↦ let here : k ≡ l = cc (OneGone-kept id k at ne) in (rw (← here) at, rw (← here) ne)
    ]
  ]

  OneGone-types :
      (id : ℕ)
      → type_of c'.cache_map id ≡ some result_cond
      → type_of c.cache_map id ≡ some result_cond
  OneGone-types id e = elim (Option-cases (location_of c.cache_map id)) [
    | inl nothing ↦ let same = one.cleared.kept id (λ k at. cc) in sym (ap type_in same) ∙ e
    | inr (k, at) ↦ elim (eq_or_ne zone k.zone) [
      | inl same ↦ cc (one.cleared.emptied id k at (ground (arith, same)))
      | inr ne ↦
          let entry = entry_at (assoc c'.cache_map.zone_map id) k (OneGone-kept id k at ne) in
          cc (ap type_in entry)
    ]
  ]

  pub Evicts-cons :
      (gone : List ℕ) (c'' : Cache D) → Evicts c' gone c'' → Evicts c (zone ∷ gone) c''
  Evicts-cons gone c'' e = record {
    order = one.order ∙ ap (◌∷◌ zone) e.order;
    freed =
        e.freed
        ∙ (ap (λ (l : List ℕ). l ++ gone) one.evicted.queued
            ∙ append-cons c.zone_state.free zone gone);
    emptied = λ id l at there. elim (eq_or_ne zone l.zone) [
      | inl same ↦ e.nowhere id (OneGone-emptied id l at same)
      | inr ne ↦ e.emptied id l (OneGone-kept id l at ne) (ground (arith, there, ne))
    ];
    kept = λ id l at elsewhere.
        let ne : zone ≢ l.zone = λ same. ground (arith, elsewhere, same) in
        e.kept id l (OneGone-kept id l at ne) (ground (arith, elsewhere, ne));
    nowhere = λ id at. e.nowhere id (OneGone-nowhere id at);
    disk_kept = e.disk_kept ∙ one.disk_kept;
    readers = e.readers ∙ one.cleared.readers;
    entries = λ id at. e.entries id (OneGone-nowhere id at) ∙ one.cleared.kept id (λ k here. cc);
    types = λ id t. OneGone-types id (e.types id t);
    shape = SameShape-after one.shape e.shape;
    active_kept = e.active_kept ∙ one.evicted.active_kept;
    writes = e.writes ∙ one.evicted.writes;
    limit = e.limit ∙ one.evicted.limit;
    number = e.number ∙ one.evicted.zones;
  }

pub Evicts-nil :
    {D : Type 0} (c c' : Cache D)
    → zones c'.eviction_policy ≡ zones c.eviction_policy
    → c'.zone_state ≡ c.zone_state
    → c'.cache_map ≡ c.cache_map
    → c'.disk ≡ c.disk
    → SameShape c c'
    → Evicts c [] c'
Evicts-nil c c' policy state map disk shape = record {
  order = sym policy;
  freed = rw state (append-nil c.zone_state.free);
  emptied = λ id l at there. cc;
  kept = λ id l at elsewhere. rw map at;
  nowhere = λ id at. rw map at;
  disk_kept = disk;
  readers = ap (λ m. m.active_readers) map;
  entries = λ id at. ap (λ m. assoc m.zone_map id) map;
  types = λ id t. rw (← map) t;
  shape = shape;
  active_kept = ap (λ s. s.active) state;
  writes = ap (λ s. s.writes_occurring) state;
  limit = ap (λ s. s.max_nr_active_zones) state;
  number = ap (λ s. s.num_zones) state;
}

listed-++ : (x : ℕ) (xs ys : List ℕ) → listed x (xs ++ ys) ≡ (listed x xs || listed x ys)
listed-++ x [] ys = refl
listed-++ x (y ∷ xs) ys = ground (arith, listed-++ x xs ys)

-- Evictions, and then others.
pub Evicts-append :
    {D : Type 0} {c c' c'' : Cache D} (gone later : List ℕ)
    → Evicts c gone c'
    → Evicts c' later c''
    → Evicts c (gone ++ later) c''
Evicts-append {c} gone later a b = record {
  order = a.order ∙ (ap (◌++◌ gone) b.order ∙ sym (append_assoc gone later _));
  freed =
      b.freed
      ∙ (ap (λ (l : List ℕ). l ++ later) a.freed ∙ append_assoc c.zone_state.free gone later);
  emptied = λ id l at there. elim (Bool-cases (listed l.zone gone)) [
    | inl first ↦ b.nowhere id (a.emptied id l at first)
    | inr not_yet ↦
        b.emptied id l (a.kept id l at not_yet) (ground (arith, listed-++ l.zone gone later))
  ];
  kept = λ id l at elsewhere.
      b.kept id l (a.kept id l at (ground (arith, listed-++ l.zone gone later)))
        (ground (arith, listed-++ l.zone gone later));
  nowhere = λ id at. b.nowhere id (a.nowhere id at);
  disk_kept = b.disk_kept ∙ a.disk_kept;
  readers = b.readers ∙ a.readers;
  entries = λ id at. b.entries id (a.nowhere id at) ∙ a.entries id at;
  types = λ id t. a.types id (b.types id t);
  shape = SameShape-after a.shape b.shape;
  active_kept = b.active_kept ∙ a.active_kept;
  writes = b.writes ∙ a.writes;
  limit = b.limit ∙ a.limit;
  number = b.number ∙ a.number;
}

-- A location after evictions is that of before, in another zone than those that are gone.
pub Evicts-before :
    {D : Type 0} (c c' : Cache D) (gone : List ℕ) (id : ℕ) (l : ZnPair)
    → Evicts c gone c'
    → location_of c'.cache_map id ≡ some l
    → location_of c.cache_map id ≡ some l
Evicts-before c c' gone id l e at = elim (Option-cases (location_of c.cache_map id)) [
  | inl nothing ↦ cc (e.nowhere id nothing)
  | inr (k, here) ↦ elim (Bool-cases (listed k.zone gone)) [
    | inl there ↦ cc (e.emptied id k here there)
    | inr elsewhere ↦ cc (e.kept id k here elsewhere)
  ]
]

-- What is left of a cache without the first zone of its policy is ready again.
pub OneGone-Ready :
    {D : Type 0} (c c' : Cache D) (zone : ℕ)
    → Ready c
    → OneGone c zone c'
    → IsConsistent c'.cache_map
    → IsLinked c'.eviction_policy.lru
    → Ready c'
OneGone-Ready c c' zone r one consistent linked =
    let absent : listed zone (zones c'.eviction_policy) ≡ false =
      first_once c.eviction_policy.lru zone _ r.linked one.order in
    let sizes : length (zones c.eviction_policy) ≡ suc (length (zones c'.eviction_policy)) =
      ap length one.order in
    record {
      consistent = consistent;
      valid = one.evicted.valid;
      linked = linked;
      all_full = λ z there.
          let ne : zone ≢ z = λ same. cc in
          let before : listed z (zones c.eviction_policy) ≡ true =
            rw (one.order) (ground (arith, ne, there)) in
          let (inside, was) = r.all_full z before in
          (rw (one.evicted.zones) inside, rw (one.evicted.others z (λ same. ne (sym same))) was);
      queued = λ z inside was.
          let ne : zone ≢ z =
            λ same. cc (one.evicted.now_free, ap (λ i. (c'.zone_state.state i).state) same) in
          let before =
            r.queued z (rw (← one.evicted.zones) inside)
              (rw (← one.evicted.others z (λ same. ne (sym same))) was) in
          let there : listed z (zone ∷ zones c'.eviction_policy) ≡ true =
            rw (one.order) at before in
          ground (arith, ne, there);
      placed = λ id l at.
          let (before, ne) = OneGone-before c c' zone one id l at in
          rw (one.evicted.others l.zone (λ same. ne (sym same))) (r.placed id l before);
      idle = λ z. rw (one.cleared.readers) (r.idle z);
      room = omega (
        arith,
        sizes,
        r.room,
        ap length one.evicted.queued,
        ap length one.evicted.active_kept,
        length-append c.zone_state.free (zone ∷ []),
        one.evicted.writes,
        one.evicted.zones,
      );
    }
