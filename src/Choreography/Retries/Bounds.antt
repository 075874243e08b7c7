-- ===== src/Choreography/Retries/Bounds.antt =====
-- How often a node is dispatched, how long it waits, and when it succeeds.
use activex_endpoint.Prelude.{
  ℕ, zero, suc, ◌+◌, ◌≤◌, ◌<◌, String, ◌≡◌, refl, Bool, All, length, arith, Bool-cases, nat_beq,
  ◌⊎◌, inl, inr,
}
use activex_endpoint.Choreography.Graph.{RetryPolicy, constant, exponential_backoff, jitter}
use activex_endpoint.Choreography.Retries.{
  next_delay_seconds, Dispatched, done, failed, Outcome, after_retry, dispatch_from,
  dispatch_with_retries,
}

next_delay-capped :
    (uniform : ℕ → ℕ) (p : RetryPolicy) (attempt base most : ℕ)
    → next_delay_seconds uniform p attempt base most ≤ most
unfolding next_delay_seconds
next_delay-capped uniform constant attempt base most = ground arith
next_delay-capped uniform exponential_backoff attempt base most = ground arith
next_delay-capped uniform jitter attempt base most = ground arith

Dispatched-cases :
    {V : Type 0} (x : Dispatched V) → ((v : V) × (x ≡ done v)) ⊎ ((e : String) × (x ≡ failed e))
Dispatched-cases (done v) = inl (v, refl)
Dispatched-cases (failed e) = inr (e, refl)

module _ {V : Type 0} (stopped : ℕ → Bool) (once : ℕ → Dispatched V) (delay : ℕ → ℕ) where
  -- The outcome `o` of at most `left + 1` attempts from `attempt` on.
  pub record Retries (most left attempt : ℕ) (o : Outcome V) : Type 0 where
    pub bounded : o.dispatches ≤ left + 1
    pub slept : All (λ d. d ≤ most) o.delays
    pub counted : o.attempt ≡ attempt + length o.delays
    pub within : o.attempt ≤ attempt + left
    -- a value comes from the attempt that is counted, and every attempt before it failed
    pub earned : (v : V) → o.result ≡ done v → once o.attempt ≡ done v
    pub persists : (i : ℕ) → attempt ≤ i → i < o.attempt → (e : String) × (once i ≡ failed e)

  after_retry-Retries :
      (most left attempt : ℕ) (o : Outcome V) (e : String)
      → once attempt ≡ failed e
      → ((i : ℕ) → delay i ≤ most)
      → Retries most left (attempt + 1) o
      → Retries most (suc left) attempt (after_retry (delay (attempt + 1)) o)
  unfolding after_retry
  after_retry-Retries most left attempt o e failure capped r = record {
    bounded = omega (arith, r.bounded);
    slept = (capped (attempt + 1), r.slept);
    counted = omega (arith, r.counted);
    within = omega (arith, r.within);
    earned = r.earned;
    persists = λ i lower upper. elim (Bool-cases (nat_beq i attempt)) [
      | inl same ↦ (e, ground (arith, failure))
      | inr apart ↦ r.persists i (ground arith) upper
    ];
  }

  dispatch_from-Retries :
      (most : ℕ)
      → ((i : ℕ) → delay i ≤ most)
      → (left attempt : ℕ)
      → Retries most left attempt (dispatch_from stopped once delay left attempt)
  unfolding dispatch_from
  dispatch_from-Retries most capped zero attempt = elim (Bool-cases (stopped attempt)) [
    | inl e ↦ rw e record {
      bounded = ground arith;
      slept = tt;
      counted = ground arith;
      within = ground arith;
      earned = λ v h. absurd (ground arith);
      persists = λ i l u. absurd (ground arith);
    }
    | inr e ↦ rw e record {
      bounded = ground arith;
      slept = tt;
      counted = ground arith;
      within = ground arith;
      earned = λ v h. h;
      persists = λ i l u. absurd (ground arith);
    }
  ]
  dispatch_from-Retries most capped (suc left) attempt = elim (Bool-cases (stopped attempt)) [
    | inl e ↦ rw e record {
      bounded = ground arith;
      slept = tt;
      counted = ground arith;
      within = ground arith;
      earned = λ v h. absurd (ground arith);
      persists = λ i l u. absurd (ground arith);
    }
    | inr e ↦ rw e (elim (Dispatched-cases (once attempt)) [
      | inl (v, good) ↦ rw good record {
        bounded = ground arith;
        slept = tt;
        counted = ground arith;
        within = ground arith;
        earned = λ w h. rw good h;
        persists = λ i l u. absurd (ground arith);
      }
      | inr (text, bad) ↦ rw bad (
          after_retry-Retries most left attempt _ text bad capped
            (dispatch_from-Retries most capped left (attempt + 1)))
    ])
  ]

-- A node is dispatched at most once more than its retries allow, sleeps at most 30 each time, counts
-- one attempt for each sleep, and returns a value only from the attempt that it counts, every earlier
-- attempt having failed.
pub dispatch_with_retries-Retries :
    {V : Type 0} (stopped : ℕ → Bool) (once : ℕ → Dispatched V) (uniform : ℕ → ℕ)
    (policy : RetryPolicy) (max_retries : ℕ)
    → Retries stopped once
        (λ i. next_delay_seconds uniform policy i 1 30)
        30
        max_retries
        0
        (dispatch_with_retries stopped once uniform policy max_retries)
unfolding dispatch_with_retries
dispatch_with_retries-Retries stopped once uniform policy max_retries =
    dispatch_from-Retries stopped once _ 30 (λ i. next_delay-capped uniform policy i 1 30)
      max_retries 0
