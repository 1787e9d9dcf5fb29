-- ===== src/Program/Threads.antt =====
-- src/zncache.c: task_function, the work of one thread, with the reader that all threads share. The cache
-- is a parameter.
pub mod Served
pub mod Completion
mod Tests
use zncache.Base.{
  ℕ, zero, suc, ◌+◌, ◌*◌, ◌/◌, ◌%◌, ◌<◌, ◌≡◌, Bool, true, Option, none, some, leb, ◌==◌,
  if◌then◌else◌, u32, u64, Run, ok, out_of_fuel, assert, ◌>>=◌, ◌>>◌, Returns,
}
use zncache.Cache.Buffer.{validate_read}

-- `struct zn_reader`, without its mutex
pub record Reader : Type 0 where
  pub workload_index : ℕ
  pub workload_buffer : ℕ → ℕ
  pub workload_max : ℕ
  pub thresh_perc : ℕ

-- What a thread shares with the others apart from the cache; the main loop quits where `done` is set.
pub record ThreadData : Type 0 where
  pub nr_threads : ℕ
  pub nr_threads_completed : ℕ
  pub done : Bool

-- PRINT_THRESH_PERCENT
abbrev pub print_thresh_percent : ℕ
print_thresh_percent = 1

-- The section of task_function under the reader's mutex: the index that the thread got, or `none` where
-- the workload is at its end.
unfoldable pub next_query : Reader → Option ℕ × Reader
next_query r =
    let wi = r.workload_index in
    let percent = wi * 100 % u64 / r.workload_max in
    let thresh = r.thresh_perc in
    if leb r.workload_max wi then (none, r) else (
      some wi,
      record r {
        workload_index = (wi + 1) % u64;
        thresh_perc = if leb thresh percent then (thresh + print_thresh_percent) % u64 else thresh;
      },
    )

-- The end of task_function, under the mutex of the counter.
unfoldable pub finish : ThreadData → ThreadData
finish t =
    let completed = (t.nr_threads_completed + 1) % u32 in
    record t {
      nr_threads_completed = completed;
      done = if completed == t.nr_threads then true else t.done;
    }

-- What a thread asks of the cache, and what it may rely on: from a good state a call returns, the state
-- after it is good, and its data passes the test.
pub record Service (C : Type 0) (chunk_sz : ℕ) (random_data : ℕ → ℕ) : Type 1 where
  pub get : C → ℕ → Run (Option (ℕ → ℕ) × C)
  pub IsGood : C → Type 0
  pub get-IsGood :
      (c : C) (id : ℕ)
      → IsGood c
      → id < 2147483648
      → Returns
          (λ (data', c').
            IsGood c'
            × ((bytes : ℕ → ℕ)
                → data' ≡ some bytes
                → validate_read chunk_sz bytes id random_data ≡ ok true))
          (get c id)

module _ {C : Type 0} {chunk_sz : ℕ} {random_data : ℕ → ℕ} (cache : Service C chunk_sz random_data)
    (verify : Bool) where
  -- The assertion under VERIFY.
  abbrev pub verified : (ℕ → ℕ) → ℕ → Run (Unit {0})
  verified bytes id =
      if verify then (validate_read chunk_sz bytes id random_data >>= λ b. assert b) else ok tt

  -- The rest of a round, with what the cache gave. Where it gave no data, the thread returns at once.
  abbrev pub answered :
      (C → Run (Reader × ThreadData × C))
      → Reader
      → ThreadData
      → ℕ
      → Option (ℕ → ℕ) × C
      → Run (Reader × ThreadData × C)
  answered again r t id (none, c) = ok (r, t, c)
  answered again r t id (some bytes, c) = verified bytes id >> again c

  -- The loop of task_function, as it runs while no other thread is in it. Each round raises the index, so
  -- `workload_max + 1` rounds are enough.
  unfoldable pub task_loop : ℕ → Reader → ThreadData → C → Run (Reader × ThreadData × C)
  task_loop zero r t c = out_of_fuel
  task_loop (suc fuel) r t c =
      let (query, r') = next_query r in
      elim query [
        | none ↦ ok (r', finish t, c)
        | some wi ↦
            let id = r.workload_buffer wi in
            cache.get c id >>= answered (λ c'. task_loop fuel r' t c') r' t id
      ]

  -- `task_function`
  unfoldable pub task_function : Reader → ThreadData → C → Run (Reader × ThreadData × C)
  task_function r t c = task_loop (r.workload_max + 1) r t c

  -- The threads that main starts, one after the other, over the reader, the counter and the cache that they share.
  unfoldable pub run_threads : ℕ → Reader → ThreadData → C → Run (Reader × ThreadData × C)
  run_threads zero r t c = ok (r, t, c)
  run_threads (suc n) r t c = task_function r t c >>= λ (r', t', c'). run_threads n r' t' c'
