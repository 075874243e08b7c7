-- ===== src/Data/Chunking/Sizes.antt =====
-- The number and the sizes of chunks of axo_endpoint/core/data/chunking.py.
use activex_endpoint.Prelude.{
  ℕ, zero, suc, ◌+◌, ◌-◌, ◌*◌, ◌/◌, ◌≤◌, ◌<◌, ◌≡◌, refl, sym, Option, none, some, if◌then◌else◌,
  nat_beq, arith,
}
use native.Mathlib.Nat.{div-add-mod, mod-lt}
use activex_endpoint.Data.Chunking.{ceil_div, total_chunks_for, expected_chunk_len}

-- The number of chunks: enough for the payload, and one fewer is not.
pub record Covers (total chunk_bytes chunks : ℕ) : Type 0 where
  pub enough : total ≤ chunks * chunk_bytes
  pub tight : (chunks - 1) * chunk_bytes < total
  pub some_chunk : 0 < chunks

Covers-of : (n c k r : ℕ) → 0 < n → n + (c - 1) ≡ k * c + r → r < c → Covers n c k
Covers-of n c zero r p e q = absurd (omega (arith, e, q, p))
Covers-of n c (suc k) r p e q = record {
  enough = omega (arith, e, q, p);
  tight = grind (arith, e, q, p);
  some_chunk = omega arith;
}

ceil_div-Covers : (n c : ℕ) → 0 < n → 0 < c → Covers n c (ceil_div n c)
unfolding ceil_div
ceil_div-Covers n c p q =
    let whole = div-add-mod (n + (c - 1)) c in
    let part = mod-lt (n + (c - 1)) q in
    Covers-of n c ((n + (c - 1)) / c) _ p (omega (arith, whole)) part

-- A payload that is not empty has just enough chunks: they cover it, and one fewer would not.
pub total_chunks_for-Covers :
    (n c : ℕ) {k : ℕ} → 0 < n → total_chunks_for n c ≡ some k → Covers n c k
unfolding total_chunks_for
total_chunks_for-Covers zero c p h = absurd (omega (arith, p))
total_chunks_for-Covers (suc n) zero p h = absurd (ground arith)
total_chunks_for-Covers (suc n) (suc c) {k} p h =
    let same : ceil_div (suc n) (suc c) ≡ k = ground arith in
    rw (sym same) (ceil_div-Covers (suc n) (suc c) p (omega arith))

abbrev pub or_zero : Option ℕ → ℕ
or_zero none = 0
or_zero (some n) = n

-- The sizes of `m` chunks from `i` on, together.
unfoldable pub size_from : ℕ → ℕ → ℕ → ℕ → ℕ
size_from n c i zero = 0
size_from n c i (suc m) = or_zero (expected_chunk_len n c i) + size_from n c (i + 1) m

chunk_len :
    (n c k i : ℕ)
    → total_chunks_for n c ≡ some k
    → or_zero (expected_chunk_len n c i) ≡ (if nat_beq (i + 1) k then n - i * c else c)
unfolding expected_chunk_len
chunk_len n c k i h = rw (h, or_zero) refl

size_from_lem :
    (n c k : ℕ)
    → total_chunks_for n c ≡ some k
    → Covers n c k
    → (m i : ℕ) → i + suc m ≡ k
    → size_from n c i (suc m) + i * c ≡ n
unfolding size_from
size_from_lem n c k h cov zero i e =
    let one_less : k - 1 ≡ i = omega (arith, e) in
    let below : i * c < n = rw one_less at cov.tight in
    let last : or_zero (expected_chunk_len n c i) ≡ n - i * c =
      ground (arith, chunk_len n c k i h, e) in
    omega (arith, last, below)
size_from_lem n c k h cov (suc m) i e =
    let ih = size_from_lem n c k h cov m (i + 1) (omega (arith, e)) in
    let whole : or_zero (expected_chunk_len n c i) ≡ c = ground (arith, chunk_len n c k i h, e) in
    grind (arith, ih, whole)

-- The sizes that the chunks of a payload that is not empty are expected to have add up to the payload.
pub expected_chunk_len-total :
    (n c : ℕ) {k : ℕ} → 0 < n → total_chunks_for n c ≡ some k → size_from n c 0 k ≡ n
expected_chunk_len-total n c {k = zero} p h =
    absurd (omega (arith, (total_chunks_for-Covers n c p h).some_chunk))
expected_chunk_len-total n c {k = suc m} p h =
    omega (arith, size_from_lem n c (suc m) h (total_chunks_for-Covers n c p h) m 0 (omega arith))
