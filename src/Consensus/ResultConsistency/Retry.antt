-- ===== src/Consensus/ResultConsistency/Retry.antt =====
-- When `push_with_retry` succeeds, and how long it waits.
use activex_endpoint.Prelude.{
  ℕ, zero, suc, ◌+◌, ◌-◌, ◌*◌, ◌^◌, ◌<◌, max, ◌≡◌, Bool, true, false, List, map, range_from, arith,
}
use native.Mathlib.Nat.{add-zero, zero-add}
use activex_endpoint.Consensus.ResultConsistency.{push_from, push_with_retry}

-- The gaps after attempts `i`, `i + 1`, … : each twice the one before.
abbrev pub gaps : ℕ → ℕ → ℕ → List ℕ
gaps base i n = map (λ k. base * 2 ^ k) (range_from i n)

push_from_fails :
    (f : ℕ → Bool) (m base n i : ℕ)
    → i + n ≡ max 1 m
    → 0 < n
    → ((j : ℕ) → j < i + n → f j ≡ false)
    → push_from f m base n i ≡ (false, gaps base i (n - 1))
unfolding push_from
push_from_fails f m base zero i e p h = absurd (omega arith)
push_from_fails f m base (suc zero) i e p h = ground (arith, h i)
push_from_fails f m base (suc (suc n)) i e p h = ground (
  arith,
  h i (omega arith),
  push_from_fails f m base (suc n) (i + 1) (omega arith) (omega arith) (λ j lt. h j (omega arith)),
)

push_from_succeeds :
    (f : ℕ → Bool) (m base n i k : ℕ)
    → i + n ≡ max 1 m
    → k < n
    → f (i + k) ≡ true
    → ((j : ℕ) → j < i + k → f j ≡ false)
    → push_from f m base n i ≡ (true, gaps base i k)
unfolding push_from
push_from_succeeds f m base zero i k e lt h below = absurd (omega arith)
push_from_succeeds f m base (suc n) i zero e lt h below =
    let now : f i ≡ true = rw (add-zero i) at h in rw now
push_from_succeeds f m base (suc n) i (suc k) e lt h below =
    let now : f i ≡ false = below i (omega arith) in
    let later =
      push_from_succeeds f m base n (i + 1) k (omega arith) (omega arith)
        (let same : i + 1 + k ≡ i + suc k = omega arith in rw same h)
        (λ j lt'. below j (omega arith)) in
    ground (arith, now, later)

-- If attempt `k` is the first to succeed and is within the limit, the call succeeds after the `k`
-- gaps before it, each twice the last.
pub push_with_retry_succeeds :
    (f : ℕ → Bool) (max_retries base k : ℕ)
    → k < max 1 max_retries
    → f k ≡ true
    → ((j : ℕ) → j < k → f j ≡ false)
    → push_with_retry f max_retries base ≡ (true, gaps base 0 k)
unfolding push_with_retry
push_with_retry_succeeds f m base k lt h below =
    push_from_succeeds f m base (max 1 m) 0 k (omega arith) lt (rw zero-add h)
      (λ j lt'. below j (omega arith))

-- If every attempt within the limit fails, the call fails, and waits after all of them but the last.
pub push_with_retry_fails :
    (f : ℕ → Bool) (max_retries base : ℕ)
    → ((j : ℕ) → j < max 1 max_retries → f j ≡ false)
    → push_with_retry f max_retries base ≡ (false, gaps base 0 (max 1 max_retries - 1))
unfolding push_with_retry
push_with_retry_fails f m base h =
    push_from_fails f m base (max 1 m) 0 (omega arith) (omega arith) (λ j lt. h j (omega arith))
