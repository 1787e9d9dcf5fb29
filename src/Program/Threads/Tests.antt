-- ===== src/Program/Threads/Tests.antt =====
-- src/zncache.c: two threads over a cache that makes each chunk anew, but gives no data for the id 9.
use zncache.Base.{
  ℕ, ◌+◌, ◌<◌, ◌≡◌, ◌↔◌, refl, arith, true, false, Bool, none, some, List, length, ◌==◌,
  if◌then◌else◌, ok, Returns, returns, Returns-if,
}
use zncache.Cache.Buffer.{with_id, validate_read}
use zncache.Cache.Buffer.Valid.{same-validates}
use zncache.Program.Threads.{Reader, ThreadData, Service, run_threads}
use zncache.Program.Threads.Completion.{through, Ends, run_threads-done_iff}

abbrev zeros : ℕ → ℕ
zeros i = 0

made-validates :
    (id : ℕ) (bytes : ℕ → ℕ)
    → id < 2147483648
    → some (with_id id zeros) ≡ some bytes
    → validate_read 4096 bytes id zeros ≡ ok true
made-validates id bytes small e =
    let same : with_id id zeros ≡ bytes = cc in
    rw (← same) (
      same-validates 4096 (with_id id zeros) id zeros (omega arith) (omega arith) (omega arith)
        (λ i h. refl))

nothing-validates :
    (id : ℕ) (bytes : ℕ → ℕ) → none ≡ some bytes → validate_read 4096 bytes id zeros ≡ ok true
nothing-validates id bytes e = cc

-- A cache without a state.
abbrev maker : Service (Unit {0}) 4096 zeros
maker = record {
  get = λ c id. if id == 9 then ok (none, c) else ok (some (with_id id zeros), c);
  IsGood = λ c. Unit {0};
  get-IsGood = λ c id good small.
      Returns-if (id == 9) (λ is. returns (tt, λ bytes e. nothing-validates id bytes e))
        (λ other. returns (tt, λ bytes e. made-validates id bytes small e));
}

-- The workload 7, 8, 9, 10.
abbrev reader : Reader
reader = record {
  workload_index = 0;
  workload_buffer = λ i. i + 7;
  workload_max = 4;
  thresh_perc = 0;
}

abbrev two_threads : ThreadData
two_threads = record { nr_threads = 2; nr_threads_completed = 0; done = false }

run_threads-done_iff_example :
    Returns
      (λ (r', t', c').
        (ends : List Bool) × (length ends ≡ two_threads.nr_threads)
        × Ends maker true reader two_threads tt ends (r', t', c')
        × (t'.nr_threads_completed ≡ through ends)
        × ((t'.done ≡ true) ↔ (through ends ≡ two_threads.nr_threads)))
      (run_threads maker true two_threads.nr_threads reader two_threads tt)
run_threads-done_iff_example =
    run_threads-done_iff maker true reader two_threads tt (omega arith) (λ i inside. omega arith)
      (omega arith) tt (omega arith) (omega arith) refl refl
