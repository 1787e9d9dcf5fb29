-- ===== src/Program/Workload.antt =====
-- src/zncache.c: read_workload. The file is a parameter, with what POSIX says of read.
pub mod Whole
mod Tests
use zncache.Base.{
  ℕ, zero, suc, ◌+◌, ◌-◌, ◌*◌, ◌≤◌, ◌<◌, ◌≡◌, ◌≢◌, refl, ap, sym, ◌∙◌, arith, ◌⊎◌, inl, inr, Bool,
  Bool-cases, eq_or_ne, true, false, ◌&&◌, ltb, leb, ◌==◌, if◌then◌else◌, Run, ok, overrun,
  out_of_fuel,
}

-- What `read` answers: -1 with EINTR, -1 with another error, or the number of bytes that it read.
pub data Answer : Type 0 where
  interrupted failed : Answer
  got : ℕ → Answer

-- An open file with state `S`.
pub record Input (S : Type 0) : Type 0 where
  pub byte : S → ℕ → ℕ
  pub position : S → ℕ
  -- `read` of a length: the answer, the bytes it stored, the file afterwards.
  pub read_file : S → ℕ → Answer × (ℕ → ℕ) × S
  pub read_file-got :
      (s : S) (length n : ℕ)
      → (read_file s length).0 ≡ got n
      → (n ≤ length) × ((i : ℕ) → i < n → (read_file s length).1 i ≡ byte s (position s + i))
  pub read_file-interrupted :
      (s : S) (length : ℕ)
      → (read_file s length).0 ≡ interrupted
      → (position (read_file s length).2 ≡ position s) × (byte (read_file s length).2 ≡ byte s)

-- Memory after `n` bytes were stored from the byte offset `at` on.
abbrev pub stored : (ℕ → ℕ) → ℕ → ℕ → (ℕ → ℕ) → ℕ → ℕ
stored memory at n bytes i = if leb at i && ltb i (at + n) then bytes (i - at) else memory i

-- The size of a `uint32_t`.
abbrev pub element_size : ℕ
element_size = 4

module _ {S : Type 0} (input : Input S) where
  -- The loop of read_workload over a buffer of `size` bytes. The pointer `buffer + total_bytes_read`
  -- counts elements of four bytes, and bytes stored behind the buffer end the run. The result is the test
  -- after the loop, with the memory.
  unfoldable pub read_workload_loop : ℕ → S → (ℕ → ℕ) → ℕ → ℕ → Run (Bool × (ℕ → ℕ))
  read_workload_loop zero s memory size total = out_of_fuel
  read_workload_loop (suc fuel) s memory size total =
      let (answer, bytes, s') = input.read_file s (size - total) in
      let at = element_size * total in
      let again = read_workload_loop fuel s' memory size total in
      let next =
        λ (n : ℕ). read_workload_loop fuel s' (stored memory at n bytes) size (total + n) in
      if ltb total size
      then elim answer [
        | interrupted ↦ again
        | failed ↦ ok (false, memory)
        | got n ↦
            if n == 0 then ok (false, memory) else (if leb (at + n) size then next n else overrun)
      ]
      else ok (total == size, memory)

  -- `read_workload`: `true` for the result 0.
  unfoldable pub read_workload : ℕ → S → (ℕ → ℕ) → ℕ → Run (Bool × (ℕ → ℕ))
  read_workload fuel s memory size = read_workload_loop fuel s memory size 0
