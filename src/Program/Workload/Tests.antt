-- ===== src/Program/Workload/Tests.antt =====
-- src/zncache.c: read_workload of a file that is read at once, and of one that is read in two parts.
use zncache.Base.{ℕ, ◌+◌, ◌≡◌, ◌≤◌, refl, arith, ltb, if◌then◌else◌, overrun}
use zncache.Program.Workload.{interrupted, got, Input, read_workload_loop, read_workload}
use zncache.Program.Workload.Whole.{Outcome, read_workload_correct}

got_interrupted : (n : ℕ) {A : Type 0} → got n ≡ interrupted → A
got_interrupted n e = cc

got-le : (most length n : ℕ) → got (if ltb most length then most else length) ≡ got n → n ≤ length
got-le most length n e =
    let same : (if ltb most length then most else length) ≡ n = cc in ground (arith, same)

-- A file whose bytes are their own offsets, read at most so many bytes at a time.
abbrev file : ℕ → Input ℕ
file most = record {
  byte = λ s i. i;
  position = λ s. s;
  read_file =
      λ s length. let n = if ltb most length then most else length in (got n, λ i. s + i, s + n);
  read_file-got = λ s length n e. (got-le most length n e, λ i inside. refl);
  read_file-interrupted = λ s length e. got_interrupted _ e;
}

abbrev zeros : ℕ → ℕ
zeros i = 0

read_workload_correct_example :
    Outcome
      (file 100)
      (λ s. 0)
      (λ s length. omega arith)
      (λ s length e. got_interrupted _ e)
      0
      8
      (read_workload (file 100) 20 0 zeros 8)
read_workload_correct_example =
    read_workload_correct (file 100) (λ s. 0) (λ s length. omega arith)
      (λ s length e. got_interrupted _ e) 20 0 zeros 8 (omega arith) (omega arith)

-- Two parts of four bytes: the second goes to the byte offset 16.
read_workload_in_parts : read_workload (file 4) 20 0 zeros 8 ≡ overrun
unfolding read_workload read_workload_loop
read_workload_in_parts = refl
