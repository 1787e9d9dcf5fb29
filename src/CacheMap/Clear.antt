-- ===== src/CacheMap/Clear.antt =====
-- src/cachemap.c: zn_cachemap_clear_chunk, which an eviction of a chunk calls.
use zncache.Base.{
  ℕ, ◌<◌, ◌≡◌, refl, ◌∙◌, ap, inl, inr, arith, ◌==◌, ◌&&◌, Bool, true, false, Bool-cases, Option,
  none, some, Option-cases, List, update, eq_or_ne, ok, check-Returns, check_holds, Returns,
  returns,
}
use zncache.Glib.{Tables, Distinct, assoc, store}
use zncache.Zones.{ZnPair}
use zncache.CacheMap.{
  CacheMap, ResultType, ZoneMapResult, result_loc, result_cond, result_empty, clear_entry,
  clear_chunk, int_key,
}
use zncache.CacheMap.Invariant.{
  location_in, location_of, type_in, type_of, IsConsistent, Writes, store-Writes,
}

-- The data at the places that `gone` tells of, and only that, is taken out of both tables.
pub record Cleared (m m' : CacheMap) (gone : ℕ → ℕ → Bool) : Type 0 where
  pub emptied :
      (id : ℕ) (l : ZnPair)
      → location_of m id ≡ some l
      → gone l.zone l.chunk_offset ≡ true
      → type_of m' id ≡ some result_empty
  pub kept :
      (id : ℕ)
      → ((l : ZnPair) → location_of m id ≡ some l → gone l.zone l.chunk_offset ≡ false)
      → assoc m'.zone_map id ≡ assoc m.zone_map id
  pub removed : (zone chunk : ℕ) → gone zone chunk ≡ true → assoc (m'.data_map zone) chunk ≡ none
  pub left :
      (zone chunk : ℕ)
      → gone zone chunk ≡ false
      → assoc (m'.data_map zone) chunk ≡ assoc (m.data_map zone) chunk
  pub readers : m'.active_readers ≡ m.active_readers

abbrev pub entry : ZnPair → ResultType → ZoneMapResult
entry l t = record { location = l; type = t }

entry_located :
    (k : ZnPair) (t : ResultType) (l : ZnPair)
    → location_in (some (entry k t)) ≡ some l
    → entry k t ≡ entry l result_loc
entry_located k result_loc l e = cc
entry_located k result_cond l e = cc
entry_located k result_empty l e = cc

pub entry_at :
    (o : Option ZoneMapResult) (l : ZnPair) → location_in o ≡ some l → o ≡ some (entry l result_loc)
entry_at none l e = cc
entry_at (some r) l e = ap some (entry_located r.location r.type l e)

entry_empty :
    (k : ZnPair) (t : ResultType) → t ≡ result_empty → location_in (some (entry k t)) ≡ none
entry_empty k t e = rw e refl

pub empty-location :
    (o : Option ZoneMapResult) → type_in o ≡ some result_empty → location_in o ≡ none
empty-location none e = refl
empty-location (some r) e = entry_empty r.location r.type (cc e)

Cleared-stays :
    (m m' : CacheMap) (gone : ℕ → ℕ → Bool) (id : ℕ) (l : ZnPair)
    → Cleared m m' gone
    → location_of m id ≡ some l
    → gone l.zone l.chunk_offset ≡ false
    → location_of m' id ≡ some l
Cleared-stays m m' gone id l c here stay =
    ap location_in (c.kept id λ k at. let l_is_k : l ≡ k = cc in rw (← l_is_k) stay) ∙ here

pub Cleared-IsConsistent :
    (m m' : CacheMap) (gone : ℕ → ℕ → Bool)
    → Cleared m m' gone
    → ((zone : ℕ) → Distinct (m'.data_map zone))
    → IsConsistent m
    → IsConsistent m'
Cleared-IsConsistent m m' gone c d v = record {
  found = found';
  owned = owned';
  fits = fits';
  unique = d;
}
  where
    found' :
        (id : ℕ) (l : ZnPair)
        → location_of m' id ≡ some l
        → assoc (m'.data_map l.zone) l.chunk_offset ≡ some id
    found' id l e = elim (Option-cases (location_of m id)) [
      | inl nowhere ↦ cc (c.kept id (λ l here. cc (nowhere, here)), e, nowhere)
      | inr (k, here) ↦ elim (Bool-cases (gone k.zone k.chunk_offset)) [
        | inl g ↦ cc (empty-location (assoc m'.zone_map id) (c.emptied id k here g), e)
        | inr g ↦
            let l_is_k : l ≡ k = cc (Cleared-stays m m' gone id k c here g, e) in
            rw (l_is_k, c.left k.zone k.chunk_offset g) (v.found id k here)
      ]
    ]

    owned' :
        (zone chunk id : ℕ)
        → assoc (m'.data_map zone) chunk ≡ some id
        → (l : ZnPair) × (location_of m' id ≡ some l) × (l.zone ≡ zone) × (l.chunk_offset ≡ chunk)
    owned' zone chunk id e = elim (Bool-cases (gone zone chunk)) [
      | inl g ↦ cc (c.removed zone chunk g, e)
      | inr g ↦
          let (l, here, z, k) = v.owned zone chunk id (cc (c.left zone chunk g, e)) in
          (l, Cleared-stays m m' gone id l c here (rw (z, k) g), z, k)
    ]

    fits' : (zone chunk id : ℕ) → assoc (m'.data_map zone) chunk ≡ some id → id < 2147483648
    fits' zone chunk id e = elim (Bool-cases (gone zone chunk)) [
      | inl g ↦ cc (c.removed zone chunk g, e)
      | inr g ↦ v.fits zone chunk id (cc (c.left zone chunk g, e))
    ]

Cleared-single :
    (chunks : Tables ℕ) (m : CacheMap) (id : ℕ) (place : ZnPair)
    (zone_map : List (ℕ × ZoneMapResult)) (l : ZnPair)
    → assoc (m.data_map place.zone) place.chunk_offset ≡ some id
    → Writes m.zone_map zone_map id (entry l result_empty)
    → IsConsistent m
    → Cleared m
        (record m {
          zone_map = zone_map;
          data_map =
              update m.data_map place.zone
                (chunks.remove (m.data_map place.zone) place.chunk_offset);
        })
        (λ zone chunk. zone == place.zone && chunk == place.chunk_offset)
Cleared-single chunks m id place zone_map l here w v = record {
  emptied = λ j k at g.
      let z : k.zone ≡ place.zone = ground arith in
      let c : k.chunk_offset ≡ place.chunk_offset = ground arith in
      let same : j ≡ id = cc (v.found j k at, here, z, c) in rw same (ap type_in w.at);
  kept = λ j others. elim (eq_or_ne j id) [
    | inl same ↦
        let (k, at, z, c) = v.owned place.zone place.chunk_offset id here in
        let outside : (k.zone == place.zone && k.chunk_offset == place.chunk_offset) ≡ false =
          others k (rw same at) in
        ground (arith, z, c)
    | inr ne ↦ w.elsewhere j ne
  ];
  removed = λ zone chunk g.
      ground (arith, chunks.assoc-remove (m.data_map place.zone) place.chunk_offset chunk);
  left = λ zone chunk g.
      ground (arith, chunks.assoc-remove (m.data_map place.zone) place.chunk_offset chunk);
  readers = refl;
}

remove_unique :
    (chunks : Tables ℕ) (m : CacheMap) (place : ZnPair) (zone : ℕ)
    → IsConsistent m
    → Distinct (
        update m.data_map place.zone
          (chunks.remove (m.data_map place.zone) place.chunk_offset)
          zone)
remove_unique chunks m place zone v =
    let d =
      chunks.remove-Distinct (m.data_map place.zone) place.chunk_offset (v.unique place.zone) in
    ground (arith, v.unique zone, d)

module _ (asserts : Bool) (ids : Tables ZoneMapResult) (chunks : Tables ℕ) where
  pub clear_entry-ok :
      (m : CacheMap) (id : ℕ) (expected : ZnPair → Bool) (l : ZnPair)
      → expected l ≡ true
      → clear_entry asserts ids chunks m id expected (some (entry l result_loc))
        ≡ ok (record m { zone_map = store m.zone_map id (entry l result_empty) })
  unfolding clear_entry
  clear_entry-ok m id expected l e = check_holds asserts _ refl ∙ check_holds asserts _ e

  -- For a place that holds the data of an id, zn_cachemap_clear_chunk returns, takes the data at that
  -- place and no other out of both tables, and keeps them in agreement.
  pub clear_chunk_correct :
      (m : CacheMap) (location : ZnPair) (id : ℕ)
      → IsConsistent m
      → assoc (m.data_map location.zone) location.chunk_offset ≡ some id
      → Returns
          (λ m'.
            IsConsistent m'
            × Cleared m m' (λ zone chunk. zone == location.zone && chunk == location.chunk_offset))
          (clear_chunk asserts ids chunks m location)
  unfolding clear_chunk
  clear_chunk_correct m location id v here =
      let (l, at, z, c) = v.owned location.zone location.chunk_offset id here in
      let e = entry_at (assoc m.zone_map id) l at in
      let small : int_key id ≡ id =
        ground (arith, v.fits location.zone location.chunk_offset id here) in
      let w = store-Writes m.zone_map id _ (entry l result_empty) e in
      let cleared = Cleared-single chunks m id location _ l here w v in
      let expected : (l.zone == location.zone && l.chunk_offset == location.chunk_offset) ≡ true =
        ground (arith, z, c) in
      rw
        (
          chunks.lookup_lem (m.data_map location.zone) location.chunk_offset,
          here,
          small,
          ids.contains_lem m.zone_map id,
          ids.lookup_lem m.zone_map id,
          e,
        )
        (check-Returns asserts _ refl (
          rw (clear_entry-ok m id _ l expected) (
            returns (
              Cleared-IsConsistent m _ _ cleared (λ zone. remove_unique chunks m location zone v) v,
              cleared,
            ))))
