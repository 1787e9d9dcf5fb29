-- ===== src/CacheMap/ClearZone.antt =====
-- src/cachemap.c: zn_cachemap_clear_zone, which an eviction of a whole zone calls.
use zncache.Base.{
  ℕ, ◌<◌, ◌≡◌, ◌≢◌, refl, ◌∙◌, inl, inr, arith, ◌==◌, Bool, false, none, some, List, [], ◌∷◌,
  update, eq_or_ne, check-Returns, Returns, returns, Returns-bind, Returns-map,
}
use zncache.Glib.{Tables, Distinct, assoc}
use zncache.Zones.{ZnPair}
use zncache.CacheMap.{CacheMap, ZoneMapResult, result_empty, clear_entries, clear_zone, int_key}
use zncache.CacheMap.Clear.{Cleared, Cleared-IsConsistent, entry, entry_at, clear_entry-ok}
use zncache.CacheMap.Invariant.{location_of, type_in, type_of, IsConsistent, Writes, store-Writes}

-- The entries of a zone's table lie in that zone.
abbrev InZone : CacheMap → ℕ → List (ℕ × ℕ) → Type 0
InZone m zone t =
    (chunk id : ℕ)
    → assoc t chunk ≡ some id
    → (l : ZnPair) × (location_of m id ≡ some l)
      × (l.zone ≡ zone)
      × (l.chunk_offset ≡ chunk)
      × (id < 2147483648)

-- The ids of a table, and no others, lose their location.
record Emptied (m : CacheMap) (t : List (ℕ × ℕ)) (m' : CacheMap) : Type 0 where
  tables : m'.data_map ≡ m.data_map
  readers : m'.active_readers ≡ m.active_readers
  emptied : (chunk id : ℕ) → assoc t chunk ≡ some id → type_of m' id ≡ some result_empty
  others :
      (id : ℕ)
      → ((chunk : ℕ) → assoc t chunk ≢ some id)
      → assoc m'.zone_map id ≡ assoc m.zone_map id

module _ (m : CacheMap) (zone chunk id : ℕ) (rest : List (ℕ × ℕ))
    (zone_map : List (ℕ × ZoneMapResult)) (fresh : assoc rest chunk ≡ none)
    (inside : InZone m zone ((chunk, id) ∷ rest)) (r : ZoneMapResult)
    (w : Writes m.zone_map zone_map id r) where
  in_rest : (c j : ℕ) → assoc rest c ≡ some j → assoc ((chunk, id) ∷ rest) c ≡ some j
  in_rest c j e = ground (arith, eq_or_ne chunk c)

  head : assoc ((chunk, id) ∷ rest) chunk ≡ some id
  head = ground arith

  id_once : (c : ℕ) → assoc rest c ≢ some id
  id_once c e =
      let (l, at, _, k, _) = inside chunk id head in
      let (l', at', _, k', _) = inside c id (in_rest c id e) in let same : chunk ≡ c = cc in cc

  rest-InZone : InZone (record m { zone_map = zone_map }) zone rest
  rest-InZone c j e =
      let (l, at, z, k, small) = inside c j (in_rest c j e) in
      let ne : j ≢ id = λ same. id_once c (rw (← same) e) in
      (l, rw (w.elsewhere j ne) at, z, k, small)

  Emptied-cons :
      (m' : CacheMap)
      → type_in (some r) ≡ some result_empty
      → Emptied (record m { zone_map = zone_map }) rest m'
      → Emptied m ((chunk, id) ∷ rest) m'
  Emptied-cons m' empty e = record {
    tables = e.tables;
    readers = e.readers;
    emptied = λ c j at. elim (eq_or_ne chunk c) [
      | inl same ↦
          let here : j ≡ id = ground (arith, same) in rw (here, e.others id id_once, w.at) empty
      | inr ne ↦ e.emptied c j (ground (arith, ne))
    ];
    others = λ j absent.
        let ne : j ≢ id = λ same. absent chunk (rw same head) in
        e.others j (λ c at. absent c (in_rest c j at)) ∙ w.elsewhere j ne;
  }

-- The zone's table is emptied after its ids.
Emptied-Cleared :
    (chunks : Tables ℕ) (m m' : CacheMap) (zone : ℕ)
    → IsConsistent m
    → Emptied m (m.data_map zone) m'
    → Cleared m
        (record m' { data_map = update m'.data_map zone (chunks.remove_all (m'.data_map zone)) })
        (λ z c. z == zone)
Emptied-Cleared chunks m m' zone v e = record {
  emptied = λ id l at g.
      let z : l.zone ≡ zone = ground arith in
      e.emptied l.chunk_offset id (rw (← z) (v.found id l at));
  kept = λ id outside. e.others id λ c at.
      let (l, here, z, _) = v.owned zone c id at in
      let away : (l.zone == zone) ≡ false = outside l here in ground (arith, z);
  removed = λ z c g. ground (arith, chunks.remove_all_lem (m'.data_map zone));
  left = λ z c g. rw e.tables (ground arith);
  readers = e.readers;
}

cleared_unique :
    (chunks : Tables ℕ) (m m' : CacheMap) (zone z : ℕ)
    → IsConsistent m
    → m'.data_map ≡ m.data_map
    → Distinct (update m'.data_map zone (chunks.remove_all (m'.data_map zone)) z)
cleared_unique chunks m m' zone z v same =
    rw (same, chunks.remove_all_lem (m.data_map zone)) (ground (arith, v.unique z))

module _ (asserts : Bool) (ids : Tables ZoneMapResult) (chunks : Tables ℕ) where
  clear_entries-Emptied :
      (t : List (ℕ × ℕ)) (m : CacheMap) (zone : ℕ)
      → Distinct t
      → InZone m zone t
      → Returns (Emptied m t) (clear_entries asserts ids chunks m zone t)
  unfolding clear_entries
  clear_entries-Emptied [] m zone d inside =
      returns (record {
        tables = refl;
        readers = refl;
        emptied = λ c j at. cc;
        others = λ j absent. refl;
      })
  clear_entries-Emptied ((chunk, id) ∷ rest) m zone (fresh, d) inside =
      let (l, at, z, k, small) = inside chunk id (ground arith) in
      let e = entry_at (assoc m.zone_map id) l at in
      let w = store-Writes m.zone_map id _ (entry l result_empty) e in
      let key : int_key id ≡ id = ground (arith, small) in
      let in_zone : (ZnPair → Bool) = λ place. place.zone == zone in
      rw (key, ids.contains_lem m.zone_map id, ids.lookup_lem m.zone_map id, e)
        (check-Returns asserts _ refl (
          rw (clear_entry-ok asserts ids chunks m id in_zone l (ground (arith, z))) (
            Returns-map
              (clear_entries-Emptied rest _ zone d
                (rest-InZone m zone chunk id rest _ fresh inside _ w))
              (λ m' after. Emptied-cons m zone chunk id rest _ fresh inside _ w m' refl after))))

  -- zn_cachemap_clear_zone returns, takes the data in the zone, and no other, out of both tables, and
  -- keeps them in agreement.
  pub clear_zone_correct :
      (m : CacheMap) (zone : ℕ)
      → IsConsistent m
      → Returns
          (λ m'. IsConsistent m' × Cleared m m' (λ z c. z == zone))
          (clear_zone asserts ids chunks m zone)
  unfolding clear_zone
  clear_zone_correct m zone v =
      Returns-bind
        (clear_entries-Emptied (m.data_map zone) m zone (v.unique zone) (λ c id at.
          let (l, here, z, k) = v.owned zone c id at in (l, here, z, k, v.fits zone c id at)))
        λ m' e. returns (
          Cleared-IsConsistent m _ _ (Emptied-Cleared chunks m m' zone v e)
              (λ z. cleared_unique chunks m m' zone z v e.tables) v,
          Emptied-Cleared chunks m m' zone v e,
        )
