-- ===== src/Program/Workload/Whole.antt =====
-- src/zncache.c: read_workload succeeds exactly where one call reads everything.
use zncache.Base.{
  ℕ, zero, suc, ◌+◌, ◌-◌, ◌*◌, ◌≤◌, ◌<◌, ◌≡◌, ◌≢◌, refl, ap, arith, ◌⊎◌, inl, inr, Bool, Bool-cases,
  eq_or_ne, true, false, ltb, leb, ◌==◌, if◌then◌else◌, Run, ok, overrun,
}
use zncache.Program.Workload.{
  Answer, interrupted, failed, got, Input, stored, element_size, read_workload_loop, read_workload,
}

Answer-cases : (a : Answer) → (a ≡ interrupted) ⊎ (a ≡ failed) ⊎ ((n : ℕ) × (a ≡ got n))
Answer-cases interrupted = inl refl
Answer-cases failed = inr (inl refl)
Answer-cases (got n) = inr (inr (n, refl))

-- The call gives an error, or writes behind the buffer.
abbrev pub Fails : Run (Bool × (ℕ → ℕ)) → Type 0
Fails call = ((memory : ℕ → ℕ) × (call ≡ ok (false, memory))) ⊎ (call ≡ overrun)

module _ {S : Type 0} (input : Input S) (left : S → ℕ)
    (left-le : (s : S) (length : ℕ) → left (input.read_file s length).2 ≤ left s)
    (left-lt : (s : S) (length : ℕ)
      → (input.read_file s length).0 ≡ interrupted
      → left (input.read_file s length).2 < left s) where
  -- After a first read that was short, the loop can only fail.
  short-Fails :
      (fuel : ℕ) (s : S) (memory : ℕ → ℕ) (size total : ℕ)
      → left s + (size - total) < fuel
      → 0 < total
      → total < size
      → Fails (read_workload_loop input fuel s memory size total)
  unfolding read_workload_loop
  short-Fails zero s memory size total enough some_read more = absurd (omega arith)
  short-Fails (suc fuel) s memory size total enough some_read more =
      let here : ltb total size ≡ true = ground (arith, more) in
      let r = input.read_file s (size - total) in
      elim (Answer-cases r.0) [
        | inl e ↦
            rw (here, e)
              (short-Fails fuel r.2 memory size total (omega (arith, left-lt s (size - total) e))
                some_read more)
        | inr (inl e) ↦ rw (here, e) (inl (memory, refl))
        | inr (inr (n, e)) ↦ elim (eq_or_ne n 0) [
          | inl nothing ↦ rw (here, e, nothing) (inl (memory, refl))
          | inr something ↦
              let some_more : (n == 0) ≡ false = ground (arith, something) in
              elim (Bool-cases (leb (element_size * total + n) size)) [
                | inr over ↦ rw (here, e, some_more, over) (inr refl)
                | inl inside ↦
                    rw (here, e, some_more, inside)
                      (short-Fails fuel r.2 _ size (total + n)
                        (omega (arith, something, left-le s (size - total))) (omega arith)
                        (ground (arith, inside, some_read)))
              ]
        ]
      ]

  -- The calls that a signal interrupted, up to the first other one.
  pub data Waits (size : ℕ) : S → S → Type 0 where
    stopped : {s : S} → Waits size s s
    waited :
        {s e : S}
        → (input.read_file s size).0 ≡ interrupted
        → Waits size (input.read_file s size).2 e
        → Waits size s e

  -- The outcome, decided by the first call that no signal interrupts.
  abbrev pub Outcome : S → ℕ → Run (Bool × (ℕ → ℕ)) → Type 0
  Outcome s size call =
      (e : S) × Waits size s e
      × ((((input.read_file e size).0 ≡ got size)
            × (memory : ℕ → ℕ) × (call ≡ ok (true, memory))
            × ((i : ℕ) → i < size → memory i ≡ input.byte s (input.position s + i)))
          ⊎ (((input.read_file e size).0 ≢ got size) × Fails call))

  filled-Outcome :
      (fuel : ℕ) (s : S) (memory : ℕ → ℕ) (size n : ℕ)
      → 0 < fuel
      → 0 < size
      → (input.read_file s size).0 ≡ got n
      → n ≡ size
      → Outcome s size (
          read_workload_loop input fuel
            (input.read_file s size).2
            (stored memory 0 n (input.read_file s size).1)
            size
            n)
  unfolding read_workload_loop
  filled-Outcome zero s memory size n some_fuel some_size e whole = absurd (omega arith)
  filled-Outcome (suc fuel) s memory size n some_fuel some_size e whole =
      let (_, bytes) = input.read_file-got s size n e in
      let full : ltb n size ≡ false = ground (arith, whole) in
      let all : (n == size) ≡ true = ground (arith, whole) in
      rw (full, all)
        (
          s,
          stopped,
          inl (
            rw whole at e,
            stored memory 0 n (input.read_file s size).1,
            refl,
            λ i inside. ground (arith, inside, whole, bytes i (omega (arith, inside, whole))),
          ),
        )

  -- What follows a first call that read some bytes.
  abbrev after_first : ℕ → S → (ℕ → ℕ) → ℕ → ℕ → Run (Bool × (ℕ → ℕ))
  after_first fuel s memory size n =
      if n == 0
      then ok (false, memory)
      else (if leb n size
          then read_workload_loop input fuel (input.read_file s size).2
              (stored memory 0 n (input.read_file s size).1) size n
          else overrun)

  first-got :
      (fuel : ℕ) (s : S) (memory : ℕ → ℕ) (size n : ℕ)
      → 0 < size
      → (input.read_file s size).0 ≡ got n
      → read_workload input (suc fuel) s memory size ≡ after_first fuel s memory size n
  unfolding read_workload read_workload_loop
  first-got fuel s memory size n some_size e =
      let here : ltb 0 size ≡ true = ground (arith, some_size) in
      let rest : size - 0 ≡ size = omega arith in
      let none_before : 0 + n ≡ n = omega arith in
      rw (here, rest, e, none_before)
        (ap
          (λ z.
            if n == 0
            then ok (false, memory)
            else (if leb n size
                then read_workload_loop input fuel (input.read_file s z).2
                    (stored memory 0 n (input.read_file s z).1) size n
                else overrun))
          rest)

  first-Fails :
      (fuel : ℕ) (s : S) (memory : ℕ → ℕ) (size n : ℕ)
      → left (input.read_file s size).2 + size < fuel
      → (input.read_file s size).0 ≡ got n
      → n ≢ size
      → Fails (after_first fuel s memory size n)
  first-Fails fuel s memory size n enough e short =
      let (most, _) = input.read_file-got s size n e in
      elim (eq_or_ne n 0) [
        | inl nothing ↦ rw nothing (inl (memory, refl))
        | inr something ↦
            let some_read : (n == 0) ≡ false = ground (arith, something) in
            let inside : leb n size ≡ true = ground (arith, most) in
            rw (some_read, inside)
              (short-Fails fuel _ _ size n (omega arith) (omega (arith, something))
                (omega (arith, short, most)))
      ]

  first-interrupted :
      (fuel : ℕ) (s : S) (memory : ℕ → ℕ) (size : ℕ)
      → 0 < size
      → (input.read_file s size).0 ≡ interrupted
      → read_workload input (suc fuel) s memory size
        ≡ read_workload input fuel (input.read_file s size).2 memory size
  unfolding read_workload read_workload_loop
  first-interrupted fuel s memory size some_size e =
      let here : ltb 0 size ≡ true = ground (arith, some_size) in
      let rest : size - 0 ≡ size = omega arith in
      rw (here, rest, e)
        (ap (λ z. read_workload_loop input fuel (input.read_file s z).2 memory size 0) rest)

  waited-Outcome :
      (s : S) (size : ℕ) (call : Run (Bool × (ℕ → ℕ)))
      → (input.read_file s size).0 ≡ interrupted
      → Outcome (input.read_file s size).2 size call
      → Outcome s size call
  waited-Outcome s size call e (last, waits, outcome) =
      let (place, same) = input.read_file-interrupted s size e in
      (last, waited e waits, rw (← place, ← same) outcome)

  -- read_workload of a buffer that is not empty, with fuel for the bytes and for the interruptions that are
  -- left, ends, and the first call that no signal interrupts decides how. Where it reads the whole file
  -- size at once, read_workload succeeds and the buffer holds the bytes of the file; otherwise it fails, or
  -- it writes behind the buffer.
  pub read_workload_correct :
      (fuel : ℕ) (s : S) (memory : ℕ → ℕ) (size : ℕ)
      → left s + size + 1 < fuel
      → 0 < size
      → Outcome s size (read_workload input fuel s memory size)
  unfolding read_workload read_workload_loop
  read_workload_correct zero s memory size enough some_size = absurd (omega arith)
  read_workload_correct (suc fuel) s memory size enough some_size =
      let here : ltb 0 size ≡ true = ground (arith, some_size) in
      let rest : size - 0 ≡ size = omega arith in
      let r = input.read_file s size in
      elim (Answer-cases r.0) [
        | inl e ↦ rw (first-interrupted fuel s memory size some_size e) (
            waited-Outcome s size _ e (
              read_workload_correct fuel r.2 memory size (omega (arith, left-lt s size e))
                some_size))
        | inr (inl e) ↦ rw (here, rest, e) (s, stopped, inr (λ whole. cc, inl (memory, refl)))
        | inr (inr (n, e)) ↦ elim (eq_or_ne n size) [
          | inl whole ↦
              let some_read : (n == 0) ≡ false = ground (arith, whole, some_size) in
              let inside : leb n size ≡ true = ground (arith, whole) in
              rw (first-got fuel s memory size n some_size e, some_read, inside)
                (filled-Outcome fuel s memory size n (omega arith) some_size e whole)
          | inr short ↦
              let differs : (input.read_file s size).0 ≢ got size = λ same. short cc in
              rw (first-got fuel s memory size n some_size e) (
                s,
                stopped,
                inr (
                  differs,
                  first-Fails fuel s memory size n (omega (arith, left-le s size)) e short,
                ),
              )
        ]
      ]
