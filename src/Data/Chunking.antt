-- ===== src/Data/Chunking.antt =====
-- axo_endpoint/core/data/chunking.py. Sizes are numbers from 0 on, so `<= 0` is `== 0`. A chunk size
-- of 0 is the ZeroDivisionError, `none`.
pub mod Sizes
use activex_endpoint.Prelude.{
  ℕ, zero, suc, ◌+◌, ◌-◌, ◌*◌, ◌/◌, Option, none, some, if◌then◌else◌, nat_beq,
}

-- `-(-n // d)`, for `d > 0`
unfoldable pub ceil_div : ℕ → ℕ → ℕ
ceil_div n d = (n + (d - 1)) / d

unfoldable pub total_chunks_for : ℕ → ℕ → Option ℕ
unfolding ceil_div
total_chunks_for zero chunk_bytes = some 0
total_chunks_for (suc n) zero = none
total_chunks_for (suc n) (suc c) = some (ceil_div (suc n) (suc c))

-- `last_index` is one less than the number of chunks, and -1 where there is none.
unfoldable pub expected_chunk_len : ℕ → ℕ → ℕ → Option ℕ
unfolding total_chunks_for
expected_chunk_len total_size chunk_bytes index = elim (total_chunks_for total_size chunk_bytes) [
  | none ↦ none
  | some chunks ↦
      some (if nat_beq (index + 1) chunks then total_size - index * chunk_bytes else chunk_bytes)
]
