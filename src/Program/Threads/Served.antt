-- ===== src/Program/Threads/Served.antt =====
-- src/zncache.c: what a thread has asked of the cache when it ends, and what its end leaves.
use zncache.Base.{
  ℕ, zero, suc, ◌+◌, ◌-◌, ◌*◌, ◌/◌, ◌%◌, ◌≤◌, ◌<◌, ◌≡◌, refl, ap, arith, ◌⊎◌, inl, inr, Bool,
  Bool-cases, true, false, Option, none, some, leb, if◌then◌else◌, u64, Run, ok, Returns, returns,
  Returns-map, Returns-value, ◌>>=◌, ◌>>◌,
}
use zncache.Cache.Buffer.{validate_read}
use zncache.Program.Threads.{
  Reader, ThreadData, Service, next_query, finish, answered, print_thresh_percent, verified,
  task_loop, task_function,
}

module _ {C : Type 0} {chunk_sz : ℕ} {random_data : ℕ → ℕ}
    (cache : Service C chunk_sz random_data) where
  -- The queries from one index to another, each answered with data that pass the test.
  pub data Served (workload : ℕ → ℕ) : ℕ → C → ℕ → C → Type 0 where
    none_yet : {i : ℕ} {c : C} → Served workload i c i c
    one_more :
        {i j : ℕ} {c d e : C} {bytes : ℕ → ℕ}
        → cache.get c (workload i) ≡ ok (some bytes, d)
        → validate_read chunk_sz bytes (workload i) random_data ≡ ok true
        → Served workload (i + 1) d j e
        → Served workload i c j e

  -- How a thread ends that starts at an index: with the workload served to its end, and counted; or at a
  -- query without data, and uncounted.
  abbrev pub EndedFrom : ℕ → (ℕ → ℕ) → ℕ → ThreadData → C → Reader × ThreadData × C → Type 0
  EndedFrom first workload last t c (r', t', c') =
      cache.IsGood c'
      × ((Served workload first c last c' × (t' ≡ finish t))
          ⊎ ((j : ℕ) × (d : C) × (j < last)
              × Served workload first c j d
              × (cache.get d (workload j) ≡ ok (none, c'))
              × (t' ≡ t)))

  -- The reader after a thread has ended: the same workload, at an index within it.
  abbrev pub Keeps : Reader → Reader → Type 0
  Keeps r r' =
      (r'.workload_buffer ≡ r.workload_buffer)
      × (r'.workload_max ≡ r.workload_max)
      × (r'.workload_index ≤ r.workload_max)

  abbrev pub Ended : Reader → ThreadData → C → Reader × ThreadData × C → Type 0
  Ended r t c v = EndedFrom r.workload_index r.workload_buffer r.workload_max t c v × Keeps r v.0

  verified_holds :
      {V : Type 0} (verify : Bool) (bytes : ℕ → ℕ) (id : ℕ) (call : Run V)
      → validate_read chunk_sz bytes id random_data ≡ ok true
      → (verified cache verify bytes id >> call) ≡ call
  verified_holds true bytes id call e = rw e refl
  verified_holds false bytes id call e = refl

  -- The reader after a query.
  abbrev taken : Reader → Reader
  taken r =
      let thresh = r.thresh_perc in
      record r {
        workload_index = r.workload_index + 1;
        thresh_perc =
            if leb thresh (r.workload_index * 100 % u64 / r.workload_max)
            then (thresh + print_thresh_percent) % u64
            else thresh;
      }

  next_query-more :
      (r : Reader)
      → leb r.workload_max r.workload_index ≡ false
      → r.workload_max < u64
      → next_query r ≡ (some (r.workload_index), taken r)
  unfolding next_query
  next_query-more r more fits =
      let no_wrap : (r.workload_index + 1) % u64 ≡ r.workload_index + 1 = ground (arith, more) in
      rw (more, no_wrap) refl

  next_query-over :
      (r : Reader) → leb r.workload_max r.workload_index ≡ true → next_query r ≡ (none, r)
  unfolding next_query
  next_query-over r over = rw over refl

  Ended-next :
      (r : Reader) (t : ThreadData) (c c' : C) (bytes : ℕ → ℕ) (v : Reader × ThreadData × C)
      → cache.get c (r.workload_buffer r.workload_index) ≡ ok (some bytes, c')
      → validate_read chunk_sz bytes (r.workload_buffer r.workload_index) random_data ≡ ok true
      → Ended (taken r) t c' v
      → Ended r t c v
  Ended-next r t c c' bytes v got valid ((good, inl (served, finished)), kept) =
      ((good, inl (one_more got valid served, finished)), kept)
  Ended-next r t c c' bytes v got valid ((good, inr (j, d, below, served, failed, same)), kept) =
      ((good, inr (j, d, below, one_more got valid served, failed, same)), kept)

  module _ (verify : Bool) where
    task_loop-more :
        (fuel : ℕ) (r : Reader) (t : ThreadData) (c : C)
        → leb r.workload_max r.workload_index ≡ false
        → r.workload_max < u64
        → task_loop cache verify (suc fuel) r t c ≡ (
            cache.get c (r.workload_buffer r.workload_index)
            >>= answered cache verify
                (λ c'. task_loop cache verify fuel (taken r) t c')
                (taken r)
                t
                (r.workload_buffer r.workload_index))
    unfolding task_loop
    task_loop-more fuel r t c more fits =
        ap
          (λ (q : Option ℕ × Reader). elim q.0 [
            | none ↦ ok (q.1, finish t, c)
            | some wi ↦
                cache.get c (r.workload_buffer wi)
                >>= answered cache verify (λ c'. task_loop cache verify fuel q.1 t c') q.1 t
                    (r.workload_buffer wi)
          ])
          (next_query-more r more fits)

    answered-Ended :
        (again : C → Run (Reader × ThreadData × C)) (r : Reader) (t : ThreadData) (c : C)
        (a : Option (ℕ → ℕ) × C)
        → leb r.workload_max r.workload_index ≡ false
        → cache.get c (r.workload_buffer r.workload_index) ≡ ok a
        → cache.IsGood a.1
        → ((bytes : ℕ → ℕ)
            → a.0 ≡ some bytes
            → validate_read chunk_sz bytes (r.workload_buffer r.workload_index) random_data
              ≡ ok true)
        → Returns (Ended (taken r) t a.1) (again a.1)
        → Returns
            (Ended r t c)
            (answered cache verify again (taken r) t (r.workload_buffer r.workload_index) a)
    answered-Ended again r t c (none, c') more e good valid rest = returns (
      (good, inr (r.workload_index, c, ground (arith, more), none_yet, e, refl)),
      (refl, refl, ground (arith, more)),
    )
    answered-Ended again r t c (some bytes, c') more e good valid rest =
        rw
          (verified_holds verify bytes (r.workload_buffer r.workload_index) (again c')
            (valid bytes refl))
          (Returns-map rest λ v ended. Ended-next r t c c' bytes v e (valid bytes refl) ended)

    task_loop-Ended :
        (fuel : ℕ) (r : Reader) (t : ThreadData) (c : C)
        → r.workload_max < u64
        → ((i : ℕ) → i < r.workload_max → r.workload_buffer i < 2147483648)
        → r.workload_index ≤ r.workload_max
        → r.workload_max - r.workload_index < fuel
        → cache.IsGood c
        → Returns (Ended r t c) (task_loop cache verify fuel r t c)
    unfolding task_loop
    task_loop-Ended zero r t c fits ids inside enough good = absurd (omega arith)
    task_loop-Ended (suc fuel) r t c fits ids inside enough good =
        elim (Bool-cases (leb r.workload_max r.workload_index)) [
          | inl over ↦
              let all : r.workload_index ≡ r.workload_max = ground (arith, over) in
              rw (task_loop, next_query-over r over, next_query-over r over)
                (returns ((good, inl (rw (← all) none_yet, refl)), (refl, refl, inside)))
          | inr more ↦
              let id = r.workload_buffer r.workload_index in
              let (a, e, (after, valid)) =
                Returns-value
                  (cache.get-IsGood c id good (ids r.workload_index (ground (arith, more)))) in
              rw (task_loop-more fuel r t c more fits, e)
                (answered-Ended (λ c'. task_loop cache verify fuel (taken r) t c') r t c a more e
                  after valid
                  (task_loop-Ended fuel (taken r) t a.1 fits ids (ground (arith, more))
                    (ground (arith, more)) after))
        ]

    -- task_function, over a cache that keeps its promises, returns. The thread has asked for the entries of
    -- the workload from its index on, in their order, and got data that pass the test. Either
    -- it came to the end, and is counted as completed; or the cache gave no data for the last of them, and
    -- the thread is not counted. The reader keeps its workload, at an index within it.
    pub task_function_correct :
        (r : Reader) (t : ThreadData) (c : C)
        → r.workload_max < u64
        → ((i : ℕ) → i < r.workload_max → r.workload_buffer i < 2147483648)
        → r.workload_index ≤ r.workload_max
        → cache.IsGood c
        → Returns (Ended r t c) (task_function cache verify r t c)
    unfolding task_function
    task_function_correct r t c fits ids inside good =
        task_loop-Ended (r.workload_max + 1) r t c fits ids inside (omega arith) good
