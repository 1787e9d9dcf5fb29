-- ===== src/Cache/Buffer/Valid.antt =====
-- src/cache.c: zn_validate_read accepts exactly the buffers of zn_gen_write_buffer, on the disk too.
use zncache.Base.{
  ℕ, zero, suc, ◌+◌, ◌-◌, ◌%◌, ◌≤◌, ◌<◌, ◌≡◌, ◌↔◌, refl, arith, inl, inr, Bool, Bool-cases, true,
  some, ltb, leb, ◌==◌, u32, u64, Run, ok, overrun, Returns, returns, Returns-map, Returns-at, ap,
  ◌∙◌, eq_or_ne, lt_or_le,
}
use zncache.Cache.Disk.{Device, write_out, read_from_disk}
use zncache.Cache.Disk.Write.{write_out_correct}
use zncache.Cache.Disk.Read.{read_from_disk_correct}
use zncache.Cache.Buffer.{id_byte, id_of, with_id, gen_write_buffer, validate_loop, validate_read}

-- A call that returns `true` exactly under a condition returns it.
Returns-true :
    {A : Type 0} {call : Run Bool} → Returns (λ r. (r ≡ true) ↔ A) call → A → call ≡ ok true
Returns-true (returns h) a = ap ok (h.1 a)

-- Four bytes hold every id.
id_of-id_byte :
    (id : ℕ) (bytes : ℕ → ℕ)
    → id < u32
    → ((i : ℕ) → i < 4 → bytes i ≡ id_byte id i)
    → id_of bytes ≡ id
id_of-id_byte id bytes h same =
    omega (
      arith,
      same 0 (omega arith),
      same 1 (omega arith),
      same 2 (omega arith),
      same 3 (omega arith),
    )

bytes-id_of :
    (bytes : ℕ → ℕ) (id : ℕ)
    → ((i : ℕ) → i < 4 → bytes i < 256)
    → id_of bytes ≡ id
    → (i : ℕ) → i < 4
    → bytes i ≡ id_byte id i
bytes-id_of bytes id small e zero h =
    omega (arith, small 0 h, small 1 (omega arith), small 2 (omega arith), small 3 (omega arith))
bytes-id_of bytes id small e (suc zero) h =
    omega (arith, small 0 (omega arith), small 1 h, small 2 (omega arith), small 3 (omega arith))
bytes-id_of bytes id small e (suc (suc zero)) h =
    omega (arith, small 0 (omega arith), small 1 (omega arith), small 2 h, small 3 (omega arith))
bytes-id_of bytes id small e (suc (suc (suc zero))) h =
    omega (arith, small 0 (omega arith), small 1 (omega arith), small 2 (omega arith), small 3 h)
bytes-id_of bytes id small e (suc (suc (suc (suc i)))) h = absurd (omega arith)

-- Equal from a position to the end of the chunk.
abbrev Same : ℕ → (ℕ → ℕ) → (ℕ → ℕ) → ℕ → Type 0
Same chunk_sz bytes buffer i = (j : ℕ) → i ≤ j → j < chunk_sz → bytes j ≡ buffer j

Same-next :
    (chunk_sz : ℕ) (bytes buffer : ℕ → ℕ) (i : ℕ)
    → bytes i ≡ buffer i
    → Same chunk_sz bytes buffer (i + 1)
    → Same chunk_sz bytes buffer i
Same-next chunk_sz bytes buffer i e rest j from inside = elim (eq_or_ne i j) [
  | inl here ↦ rw (← here) e
  | inr later ↦ rest j (omega arith) inside
]

validate_loop-Same :
    (fuel chunk_sz : ℕ) (bytes buffer : ℕ → ℕ) (i : ℕ)
    → chunk_sz - i < fuel
    → chunk_sz < u32
    → Returns
        (λ r. (r ≡ true) ↔ Same chunk_sz bytes buffer i)
        (validate_loop fuel chunk_sz bytes buffer i)
unfolding validate_loop
validate_loop-Same zero chunk_sz bytes buffer i enough fits = absurd (omega arith)
validate_loop-Same (suc fuel) chunk_sz bytes buffer i enough fits =
    elim (Bool-cases (ltb i chunk_sz)) [
      | inr past ↦ rw past (returns (λ e j from inside. absurd (ground (arith, past)), λ s. refl))
      | inl more ↦
          let no_wrap : (i + 1) % u32 ≡ i + 1 = ground (arith, more) in
          rw (more, no_wrap)
            (elim (Bool-cases (bytes i == buffer i)) [
              | inl same ↦ rw same (
                  Returns-map
                    (validate_loop-Same fuel chunk_sz bytes buffer (i + 1) (ground (arith, more))
                      fits)
                    λ r both. (
                      λ e. Same-next chunk_sz bytes buffer i (ground (arith, same)) (both.0 e),
                      λ s. both.1 (λ j from inside. s j (omega arith) inside),
                    ))
              | inr differs ↦ rw differs (
                  returns (
                    λ e. cc,
                    λ s. ground (arith, differs, s i (omega arith) (ground (arith, more))),
                  ))
            ])
    ]

gen_write_buffer-made :
    (chunk_sz id : ℕ) (buffer made : ℕ → ℕ)
    → gen_write_buffer true chunk_sz id buffer ≡ ok made
    → (4 ≤ chunk_sz) × (made ≡ with_id id buffer)
unfolding gen_write_buffer
gen_write_buffer-made chunk_sz id buffer made e = elim (Bool-cases (leb 4 chunk_sz)) [
  | inl long ↦
      let there : ok (with_id id buffer) ≡ ok made = rw long at e in (ground (arith, long), cc)
  | inr short ↦ let there : overrun ≡ ok made = rw short at e in cc
]

validate_with_id :
    (chunk_sz : ℕ) (bytes : ℕ → ℕ) (id : ℕ) (buffer : ℕ → ℕ)
    → 4 ≤ chunk_sz
    → chunk_sz < u32
    → id < u32
    → ((i : ℕ) → i < 4 → bytes i < 256)
    → Returns
        (λ r. (r ≡ true) ↔ ((i : ℕ) → i < chunk_sz → bytes i ≡ with_id id buffer i))
        (validate_read chunk_sz bytes id buffer)
unfolding validate_read
validate_with_id chunk_sz bytes id buffer long fits small wide =
    elim (Bool-cases (id_of bytes == id)) [
      | inl same ↦
          let first = bytes-id_of bytes id wide (ground (arith, same)) in
          rw same (
            Returns-map
              (validate_loop-Same (chunk_sz + 1) chunk_sz bytes buffer 4 (omega arith) fits)
              λ r both. (
                λ e i inside. elim (lt_or_le i 4) [
                  | inl head ↦ ground (arith, first i head, head)
                  | inr tail ↦ ground (arith, both.0 e i tail inside, tail)
                ],
                λ s. both.1 (λ j from inside. ground (arith, s j inside, from)),
              ))
      | inr other ↦ rw other (
          returns (
            λ e. cc,
            λ s.
                let head : (i : ℕ) → i < 4 → bytes i ≡ id_byte id i =
                  λ i h. ground (arith, s i (omega arith), h) in
                ground (arith, other, id_of-id_byte id bytes small head),
          ))
    ]

-- For a chunk below 2^32 and an id of 32 bits, zn_validate_read returns, and returns 0 exactly where the
-- bytes of the chunk are those that zn_gen_write_buffer makes of the id and the buffer.
pub validate_read_iff :
    (chunk_sz : ℕ) (bytes : ℕ → ℕ) (id : ℕ) (buffer made : ℕ → ℕ)
    → chunk_sz < u32
    → id < u32
    → ((i : ℕ) → i < 4 → bytes i < 256)
    → gen_write_buffer true chunk_sz id buffer ≡ ok made
    → Returns
        (λ r. (r ≡ true) ↔ ((i : ℕ) → i < chunk_sz → bytes i ≡ made i))
        (validate_read chunk_sz bytes id buffer)
validate_read_iff chunk_sz bytes id buffer made fits small wide e =
    let (long, same) = gen_write_buffer-made chunk_sz id buffer made e in
    rw same (validate_with_id chunk_sz bytes id buffer long fits small wide)

-- The bytes that a write of such a buffer has put on the disk are below 256 where the id stands.
with_id-small :
    (id : ℕ) (bytes buffer : ℕ → ℕ)
    → ((i : ℕ) → i < 4 → bytes i ≡ with_id id buffer i)
    → (i : ℕ) → i < 4
    → bytes i < 256
with_id-small id bytes buffer same zero h = omega (arith, same 0 h)
with_id-small id bytes buffer same (suc zero) h = omega (arith, same 1 h)
with_id-small id bytes buffer same (suc (suc zero)) h = omega (arith, same 2 h)
with_id-small id bytes buffer same (suc (suc (suc zero))) h = omega (arith, same 3 h)
with_id-small id bytes buffer same (suc (suc (suc (suc i)))) h = absurd (omega arith)

-- Bytes that are a buffer of zn_gen_write_buffer pass the test.
pub same-validates :
    (chunk_sz : ℕ) (bytes : ℕ → ℕ) (id : ℕ) (buffer : ℕ → ℕ)
    → 4 ≤ chunk_sz
    → chunk_sz < u32
    → id < u32
    → ((i : ℕ) → i < chunk_sz → bytes i ≡ with_id id buffer i)
    → validate_read chunk_sz bytes id buffer ≡ ok true
same-validates chunk_sz bytes id buffer long fits small same =
    let wide = with_id-small id bytes buffer (λ i h. same i (omega arith)) in
    Returns-true (validate_with_id chunk_sz bytes id buffer long fits small wide) same

-- What zn_write_out put on the disk without an error, of the buffer that zn_gen_write_buffer made of an id,
-- zn_read_from_disk of the same range gives back, or NULL, and zn_validate_read accepts it for that id.
pub read-write_validates :
    {D : Type 0} (disk : Device D) (asserts : Bool) (d d' : D) (chunk_sz io_size wp id : ℕ)
    (memory buffer made : ℕ → ℕ)
    → 0 < io_size
    → wp + chunk_sz ≤ u64
    → chunk_sz < u32
    → id < u32
    → gen_write_buffer true chunk_sz id buffer ≡ ok made
    → write_out disk asserts d chunk_sz made io_size wp ≡ ok (true, d')
    → Returns
        (λ (r, d'').
          (bytes : ℕ → ℕ) → r ≡ some bytes → validate_read chunk_sz bytes id buffer ≡ ok true)
        (read_from_disk disk (some memory) d' chunk_sz io_size wp)
read-write_validates disk asserts d d' chunk_sz io_size wp id memory buffer made progress range fits
      small gen wrote =
    let (long, same) = gen_write_buffer-made chunk_sz id buffer made gen in
    let (_, stored, _) =
      Returns-at (write_out_correct disk asserts d chunk_sz made io_size wp progress range) wrote in
    Returns-map (read_from_disk_correct disk memory d' chunk_sz io_size wp progress range)
      λ (r, d'') (_, read, _) bytes e.
        let all : (i : ℕ) → i < chunk_sz → bytes i ≡ with_id id buffer i =
          λ i inside. read bytes e i inside ∙ (stored refl i inside ∙ ap (λ f. f i) same) in
        same-validates chunk_sz bytes id buffer long fits small all
