-- ===== src/CacheMap/Tests.antt =====
-- src/cachemap.c: the theorems of the map at a concrete map, in which zone 0 holds the ids 7 and 9.
use zncache.Base.{
  ℕ, ◌≡◌, refl, arith, true, false, some, [], ◌∷◌, Returns, Returns-at, update, overrun,
}
use zncache.Glib.{list_tables}
use zncache.Zones.{ZnPair}
use zncache.CacheMap.{
  CacheMap, located, writes, copied, find_entry, insert_entry, ZoneMapResult, result_loc,
  result_cond, result_empty, init, find, insert, clear_chunk, clear_zone,
}
use zncache.CacheMap.Invariant.{type_in, IsConsistent}
use zncache.CacheMap.Lookup.{Outcome, find_correct, init-IsConsistent}
use zncache.CacheMap.Fill.{insert_places}
use zncache.CacheMap.Faults.{copied-after_clear_zone, clear_chunk_large_id}

abbrev place : ℕ → ZnPair
place chunk = record { zone = 0; chunk_offset = chunk; id = 0; in_use = true }

abbrev waiting : ZoneMapResult
waiting = record {
  location = record { zone = 0; chunk_offset = 0; id = 0; in_use = false };
  type = result_cond;
}

abbrev no_ids : CacheMap
no_ids = record { zone_map = []; data_map = λ zone. []; active_readers = λ zone. 0 }

-- The id 7 is being written.
abbrev one_writing : CacheMap
one_writing = record no_ids { zone_map = (7, waiting) ∷ [] }

-- The id 7 is at chunk 3 of zone 0.
abbrev one_written : CacheMap
one_written = record {
  zone_map = (7, record { location = place 3; type = result_loc }) ∷ [];
  data_map = update (λ zone. []) 0 ((3, 7) ∷ []);
  active_readers = λ zone. 0;
}

no_ids-IsConsistent : IsConsistent no_ids
unfolding init
no_ids-IsConsistent = init-IsConsistent true list_tables list_tables (λ zone. 0)

one_writing-IsConsistent : IsConsistent one_writing
unfolding find find_entry
one_writing-IsConsistent =
    (Returns-at {v = (writes, one_writing)}
      (find_correct true list_tables list_tables no_ids 7 no_ids-IsConsistent) refl).0

one_written-IsConsistent : IsConsistent one_written
unfolding insert insert_entry
one_written-IsConsistent =
    (Returns-at {v = one_written}
      (insert_places true list_tables list_tables one_writing 7 (place 3) one_writing-IsConsistent
        refl (omega arith) refl)
      refl).0

-- A reader finds the id.
find_correct_example :
    Returns
      (λ (f, m'). IsConsistent m' × Outcome one_written 7 f m')
      (find true list_tables list_tables one_written 7)
find_correct_example =
    find_correct true list_tables list_tables one_written 7 one_written-IsConsistent

-- Zone 0 is cleared while a reader of the id 7 has not copied the entry yet.
copied-after_clear_zone_example :
    Returns
      (λ m''.
        (type_in (copied true list_tables list_tables m'' 7) ≡ some result_empty)
        × (m''.active_readers 0 ≡ 1))
      (clear_zone true list_tables list_tables
        (record one_written { active_readers = update (λ zone. 0) 0 1 })
        0)
unfolding find find_entry
copied-after_clear_zone_example =
    copied-after_clear_zone true list_tables list_tables one_written 7 (place 3) (located (place 3))
      (record one_written { active_readers = update (λ zone. 0) 0 1 }) one_written-IsConsistent refl
      refl

-- The id 2^31 is at chunk 3 of zone 0.
abbrev large_written : CacheMap
large_written = record {
  zone_map = (2147483648, record { location = place 3; type = result_loc }) ∷ [];
  data_map = update (λ zone. []) 0 ((3, 2147483648) ∷ []);
  active_readers = λ zone. 0;
}

clear_chunk_large_id_example :
    clear_chunk false list_tables list_tables large_written (place 3) ≡ overrun
clear_chunk_large_id_example =
    clear_chunk_large_id false list_tables list_tables large_written (place 3) 2147483648 refl
      (omega arith) (λ k h. ground arith)
