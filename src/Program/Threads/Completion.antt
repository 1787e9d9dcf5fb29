-- ===== src/Program/Threads/Completion.antt =====
-- src/zncache.c: the counter of the threads that came to the end of the workload.
use zncache.Base.{
  ℕ, zero, suc, ◌∙◌, ap, u64, ok, none, Returns, returns, Returns-map, Returns-value, ◌+◌, ◌%◌, ◌≤◌,
  ◌<◌, ◌≡◌, ◌↔◌, refl, arith, Bool, Bool-cases, true, false, List, [], ◌∷◌, ◌==◌, u32, length, inl,
  inr,
}
use zncache.Program.Threads.{Reader, ThreadData, Service, finish, task_function, run_threads}
use zncache.Program.Threads.Served.{Served, task_function_correct}

-- The number of threads that came to the end.
abbrev pub through : List Bool → ℕ
through [] = 0
through (true ∷ ends) = suc (through ends)
through (false ∷ ends) = through ends

through-le-length : (ends : List Bool) → through ends ≤ length ends
through-le-length [] = omega arith
through-le-length (true ∷ ends) = omega (arith, through-le-length ends)
through-le-length (false ∷ ends) = omega (arith, through-le-length ends)

finish-done :
    (t : ThreadData)
    → t.nr_threads < u32
    → t.nr_threads_completed + 1 ≤ t.nr_threads
    → (t.done ≡ true → t.nr_threads_completed ≡ t.nr_threads)
    → ((finish t).done ≡ true) ↔ ((finish t).nr_threads_completed ≡ t.nr_threads)
unfolding finish
finish-done t fits room sound =
    let no_wrap : (t.nr_threads_completed + 1) % u32 ≡ t.nr_threads_completed + 1 = omega arith in
    elim (Bool-cases (t.nr_threads_completed + 1 == t.nr_threads)) [
      | inl last ↦ rw (no_wrap, last) (λ e. ground (arith, last), λ e. refl)
      | inr more ↦ rw (no_wrap, more) (λ e. omega (arith, sound e), λ e. ground (arith, more))
    ]

finish-completed :
    (t : ThreadData)
    → t.nr_threads < u32
    → t.nr_threads_completed + 1 ≤ t.nr_threads
    → (finish t).nr_threads_completed ≡ t.nr_threads_completed + 1
unfolding finish
finish-completed t fits room = omega arith

-- The counter after threads of which some came through.
abbrev all_end : List Bool → ThreadData → ThreadData
all_end [] t = t
all_end (true ∷ ends) t = all_end ends (finish t)
all_end (false ∷ ends) t = all_end ends t

all_end-completed :
    (ends : List Bool) (t : ThreadData)
    → t.nr_threads < u32
    → t.nr_threads_completed + length ends ≤ t.nr_threads
    → (all_end ends t).nr_threads_completed ≡ t.nr_threads_completed + through ends
unfolding finish
all_end-completed [] t fits room = omega arith
all_end-completed (true ∷ ends) t fits room =
    let one = finish-completed t fits (omega arith) in
    let rest = all_end-completed ends (finish t) fits (omega (arith, one)) in
    omega (arith, rest, one)
all_end-completed (false ∷ ends) t fits room = all_end-completed ends t fits (omega arith)

all_end-done :
    (ends : List Bool) (t : ThreadData)
    → t.nr_threads < u32
    → t.nr_threads_completed + length ends ≤ t.nr_threads
    → (t.done ≡ true) ↔ (t.nr_threads_completed ≡ t.nr_threads)
    → ((all_end ends t).done ≡ true) ↔ (t.nr_threads_completed + through ends ≡ t.nr_threads)
unfolding finish
all_end-done [] t fits room sound = (λ e. omega (arith, sound.0 e), λ e. sound.1 (omega arith))
all_end-done (true ∷ ends) t fits room sound =
    let first = finish-done t fits (omega arith) (λ e. sound.0 e) in
    let one = finish-completed t fits (omega arith) in
    let next = all_end-done ends (finish t) fits (omega (arith, one)) first in
    (λ e. omega (arith, next.0 e, one), λ e. next.1 (omega (arith, one)))
all_end-done (false ∷ ends) t fits room sound = all_end-done ends t fits (omega arith) sound

module _ {C : Type 0} {chunk_sz : ℕ} {random_data : ℕ → ℕ} (cache : Service C chunk_sz random_data)
    (verify : Bool) where
  -- A run of task_function by each thread in turn, and how it ended: the thread was answered with data that
  -- pass the test up to the end of the workload, or up to a query that gave no data.
  pub data Ends : Reader → ThreadData → C → List Bool → Reader × ThreadData × C → Type 0 where
    no_more : {r : Reader} {t : ThreadData} {c : C} → Ends r t c [] (r, t, c)
    came_through :
        {r r' : Reader} {t t' : ThreadData} {c c' : C} {ends : List Bool}
        {v : Reader × ThreadData × C}
        → task_function cache verify r t c ≡ ok (r', t', c')
        → Served cache r.workload_buffer r.workload_index c r.workload_max c'
        → Ends r' t' c' ends v
        → Ends r t c (true ∷ ends) v
    got_none :
        {r r' : Reader} {t t' : ThreadData} {c c' d : C} {j : ℕ} {ends : List Bool}
        {v : Reader × ThreadData × C}
        → task_function cache verify r t c ≡ ok (r', t', c')
        → j < r.workload_max
        → Served cache r.workload_buffer r.workload_index c j d
        → cache.get d (r.workload_buffer j) ≡ ok (none, c')
        → Ends r' t' c' ends v
        → Ends r t c (false ∷ ends) v

  -- What a run of some threads leaves of the counter.
  abbrev Counts : ℕ → Reader → ThreadData → C → Reader × ThreadData × C → Type 0
  Counts n r t c v =
      (ends : List Bool) × (length ends ≡ n) × Ends r t c ends v × (v.1 ≡ all_end ends t)

  run_threads-Counts :
      (n : ℕ) (r : Reader) (t : ThreadData) (c : C)
      → r.workload_max < u64
      → ((i : ℕ) → i < r.workload_max → r.workload_buffer i < 2147483648)
      → r.workload_index ≤ r.workload_max
      → cache.IsGood c
      → Returns (Counts n r t c) (run_threads cache verify n r t c)
  unfolding run_threads
  run_threads-Counts zero r t c fits small inside good = returns ([], refl, no_more, refl)
  run_threads-Counts (suc n) r t c fits small inside good =
      let ((r', t', c'), e, ((good', how), (buffer, most, inside'))) =
        Returns-value (task_function_correct cache verify r t c fits small inside good) in
      let rest =
        run_threads-Counts n r' t' c' (rw most fits) (rw (buffer, most) small) (rw most inside')
          good' in
      rw (e, run_threads)
        (Returns-map rest λ v (ends, count, ran, left). elim how [
          | inl (served, finished) ↦ (
            true ∷ ends,
            omega (arith, count),
            came_through e served ran,
            left ∙ ap (all_end ends) finished,
          )
          | inr (j, d, below, served, failed, same) ↦ (
            false ∷ ends,
            omega (arith, count),
            got_none e below served failed ran,
            left ∙ ap (all_end ends) same,
          )
        ])

  -- Where all threads, up to 2^32 - 1 and at least one, run task_function, one after the other, over a cache
  -- that keeps its promises and a workload of ids below 2^31, they all return. The counter is the number of
  -- those that were answered up to the end of the workload, and the program is told to quit if and only if
  -- that is every one of them: where a thread returned because it got no data, the program is never told.
  pub run_threads-done_iff :
      (r : Reader) (t : ThreadData) (c : C)
      → r.workload_max < u64
      → ((i : ℕ) → i < r.workload_max → r.workload_buffer i < 2147483648)
      → r.workload_index ≤ r.workload_max
      → cache.IsGood c
      → 0 < t.nr_threads
      → t.nr_threads < u32
      → t.nr_threads_completed ≡ 0
      → t.done ≡ false
      → Returns
          (λ (r', t', c').
            (ends : List Bool) × (length ends ≡ t.nr_threads)
            × Ends r t c ends (r', t', c')
            × (t'.nr_threads_completed ≡ through ends)
            × ((t'.done ≡ true) ↔ (through ends ≡ t.nr_threads)))
          (run_threads cache verify t.nr_threads r t c)
  run_threads-done_iff r t c fits small inside good some_thread short none_yet running =
      Returns-map (run_threads-Counts t.nr_threads r t c fits small inside good)
        λ (r', t', c') (ends, count, ran, left).
          let both = all_end-done ends t short (omega arith) (λ e. cc, λ e. absurd (omega arith)) in
          let total = all_end-completed ends t short (omega arith) in
          (
            ends,
            count,
            ran,
            rw left (omega (arith, total, none_yet)),
            rw left (λ e. omega (arith, both.0 e, none_yet), λ e. both.1 (omega (arith, none_yet))),
          )
