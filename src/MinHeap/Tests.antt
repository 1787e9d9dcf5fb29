-- ===== src/MinHeap/Tests.antt =====
-- Runs of src/minheap.c on small heaps, and the theorems at concrete heaps.
use zncache.Base.{
  ℕ, ◌≡◌, refl, arith, true, Option, none, some, List, [], ◌∷◌, ◌==◌, if◌then◌else◌, Run, ok, ◌>>=◌,
  Returns,
}
use zncache.MinHeap.{
  Ptr, MinheapEntry, Minheap, init, insert, bubble_up, bubble_down, extract_min, update_by_entry,
  set_priority,
}
use zncache.MinHeap.Order.{Holds}
use zncache.MinHeap.Insert.{IsValid, Inserted, init-IsValid, insert_correct}
use zncache.MinHeap.Extract.{Extracted, extract_min_correct}
use zncache.MinHeap.Update.{Updated, update_by_entry_correct, update_by_entry_stale}

abbrev entry : ℕ → ℕ → ℕ → MinheapEntry
entry payload priority index = record { payload = payload; priority = priority; index = index }

-- Three entries at the addresses 10, 11 and 12.
abbrev sample_arr : ℕ → Ptr
sample_arr i = if i == 0 then 11 else if i == 1 then 10 else 12

abbrev sample_memory : Ptr → MinheapEntry
sample_memory p =
    if p == 11 then entry 200 1 0 else if p == 10 then entry 100 3 1 else entry 300 2 2

abbrev sample : Minheap
sample = record { arr = sample_arr; size = 3; capacity = 4; memory = sample_memory }

sample-IsValid : IsValid sample
sample-IsValid = record {
  heap = λ c p q. ground arith;
  indexed = λ c q. ground arith;
  room = omega arith;
  fits = omega arith;
}

abbrev blank : Minheap
blank = record { arr = λ i. 0; size = 0; capacity = 2; memory = λ p. entry 0 0 0 }

-- Priorities come out in order, also past a growth of the array and a change of one.
abbrev session : Run (List ℕ)
session = do
  (a, h1) ← insert true (some 10) blank 100 3
  (b, h2) ← insert true (some 11) h1 200 1
  (c, h3) ← insert true (some 12) h2 300 2
  (done, h4) ← update_by_entry h3 (some 10) 0
  (x, h5) ← extract_min h4
  (y, h6) ← extract_min h5
  (z, h7) ← extract_min h6
  (w, h8) ← extract_min h7
  ok (h8.capacity ∷ place x ∷ place y ∷ place z ∷ place w ∷ [])
  where
    place : Option Ptr → ℕ
    place none = 0
    place (some p) = p

session_runs : session ≡ ok (4 ∷ 10 ∷ 11 ∷ 12 ∷ 0 ∷ [])
unfolding insert update_by_entry extract_min bubble_up bubble_down
session_runs = refl

init-IsValid_example : IsValid blank × (blank.size ≡ 0)
unfolding init
init-IsValid_example = init-IsValid (λ i. 0) (λ p. entry 0 0 0) 2 blank (omega arith) refl

insert_correct_example : Returns (Inserted sample 4 13 400 0) (insert true (some 13) sample 400 0)
insert_correct_example =
    insert_correct sample 13 400 0 sample-IsValid (λ k. absurd (ground arith)) (omega arith)
      (omega arith)

extract_min_correct_example :
    Returns (λ r. (p : Ptr) × (r.0 ≡ some p) × Extracted sample p r.1) (extract_min sample)
extract_min_correct_example = extract_min_correct sample sample-IsValid (omega arith)

update_by_entry_correct_example :
    Returns (λ r. (r.0 ≡ true) × Updated sample 12 0 r.1) (update_by_entry sample (some 12) 0)
update_by_entry_correct_example =
    update_by_entry_correct sample 12 0 sample-IsValid (omega arith, refl)

-- The sample without its entry at 11.
abbrev rest : Minheap
rest = record {
  arr = λ i. if i == 0 then 12 else sample_arr i;
  size = 2;
  capacity = 4;
  memory = λ p. if p == 12 then entry 300 2 0 else sample_memory p;
}

rest-Extracted : Extracted sample 11 rest
rest-Extracted = record {
  valid = record {
    heap = λ c p q. ground arith;
    indexed = λ c q. ground arith;
    room = omega arith;
    fits = omega arith;
  };
  size = refl;
  was = (omega arith, refl);
  least = λ q k. ground arith;
  held = λ q. (λ k. ground arith, λ k. ground arith);
  priority = λ q. ground arith;
  payload = λ q. ground arith;
  stale = refl;
}

update_by_entry_stale_example :
    (update_by_entry rest (some 11) 9 ≡ ok (true, set_priority rest 11 9)) × (¬ Holds rest 11)
update_by_entry_stale_example = update_by_entry_stale sample rest 11 9 rest-Extracted (omega arith)
