-- ===== src/Cache/Buffer.antt =====
-- src/cache.c: the buffer that stands for remote data, with the id in its first four bytes, and its test.
-- Bytes are numbers below 256, and the host is little-endian.
pub mod Valid
mod Tests
use zncache.Base.{
  ℕ, zero, suc, ◌+◌, ◌-◌, ◌*◌, ◌/◌, ◌%◌, ◌^◌, ◌≤◌, ◌<◌, ◌≡◌, ◌↔◌, refl, arith, ◌⊎◌, inl, inr, Bool,
  Bool-cases, true, false, Option, none, some, ltb, leb, ◌==◌, if◌then◌else◌, u32, Run, ok, aborted,
  overrun, out_of_fuel, Returns, returns,
}

-- The bytes of a `uint32_t` in memory, and the number that four bytes make.
abbrev pub id_byte : ℕ → ℕ → ℕ
id_byte id zero = id % 256
id_byte id (suc zero) = id / 256 % 256
id_byte id (suc (suc zero)) = id / 65536 % 256
id_byte id (suc (suc (suc i))) = id / 16777216 % 256

abbrev pub id_of : (ℕ → ℕ) → ℕ
id_of bytes = bytes 0 + 256 * bytes 1 + 65536 * bytes 2 + 16777216 * bytes 3

-- The buffer with the id over its first four bytes.
abbrev pub with_id : ℕ → (ℕ → ℕ) → ℕ → ℕ
with_id id buffer i = if ltb i 4 then id_byte id i else buffer i

-- `zn_gen_write_buffer`: `allocated` tells whether posix_memalign succeeds, and without memory the
-- program exits. The id needs four bytes.
unfoldable pub gen_write_buffer : Bool → ℕ → ℕ → (ℕ → ℕ) → Run (ℕ → ℕ)
gen_write_buffer allocated chunk_sz id buffer =
    if allocated then (if leb 4 chunk_sz then ok (with_id id buffer) else overrun) else aborted

-- The loop of zn_validate_read; `i` is a `uint32_t`, and `chunk_sz + 1` rounds are enough for a chunk
-- below 2^32.
unfoldable pub validate_loop : ℕ → ℕ → (ℕ → ℕ) → (ℕ → ℕ) → ℕ → Run Bool
validate_loop zero chunk_sz bytes compare_buffer i = out_of_fuel
validate_loop (suc fuel) chunk_sz bytes compare_buffer i =
    let rest = validate_loop fuel chunk_sz bytes compare_buffer ((i + 1) % u32) in
    if ltb i chunk_sz then (if bytes i == compare_buffer i then rest else ok false) else ok true

-- `zn_validate_read`: `true` for the result 0 and `false` for -1.
unfoldable pub validate_read : ℕ → (ℕ → ℕ) → ℕ → (ℕ → ℕ) → Run Bool
unfolding validate_loop
validate_read chunk_sz bytes id compare_buffer =
    if id_of bytes == id
    then validate_loop (chunk_sz + 1) chunk_sz bytes compare_buffer 4
    else ok false
