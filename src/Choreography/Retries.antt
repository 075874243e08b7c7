-- ===== src/Choreography/Retries.antt =====
-- axo_vem/axo_vem/domain/choreography/retry_policy.py, and `_dispatch_with_retries` of
-- axo_vem/axo_vem/application/choreography/run_choreography.py. Times are ticks. The dispatches and
-- the stop flag are given by what the attempts see, in the order of the attempts.
pub mod Bounds
use activex_endpoint.Prelude.{
  ℕ, zero, suc, ◌+◌, ◌-◌, ◌*◌, ◌^◌, min, String, Bool, Option, none, some, List, [], ◌∷◌,
  if◌then◌else◌,
}
use activex_endpoint.Choreography.Graph.{RetryPolicy, constant, exponential_backoff, jitter}

-- `random.uniform(0, b)` is a draw on the bound.
unfoldable pub next_delay_seconds : (ℕ → ℕ) → RetryPolicy → ℕ → ℕ → ℕ → ℕ
next_delay_seconds uniform constant attempt base_seconds max_seconds = min base_seconds max_seconds
next_delay_seconds uniform exponential_backoff attempt base_seconds max_seconds =
    min (base_seconds * 2 ^ (attempt - 1)) max_seconds
next_delay_seconds uniform jitter attempt base_seconds max_seconds =
    min (uniform (base_seconds * 2 ^ (attempt - 1))) max_seconds

-- `(ok, value, error)` of `_dispatch_once`
pub data Dispatched (V : Type 0) : Type 0 where
  done : V → Dispatched V
  failed : String → Dispatched V

-- What the loop returns, the attempts that it made, the delays that it slept, and `state.attempt`.
pub record Outcome (V : Type 0) : Type 0 where
  pub result : Dispatched V
  pub dispatches : ℕ
  pub delays : List ℕ
  pub attempt : ℕ

module _ {V : Type 0} where
  unfoldable pub after_retry : ℕ → Outcome V → Outcome V
  after_retry delay o = record o { dispatches = o.dispatches + 1; delays = delay ∷ o.delays }

  -- `left` is `node.max_retries - attempt`, so `attempt >= node.max_retries` is that it is 0.
  unfoldable pub dispatch_from : (ℕ → Bool) → (ℕ → Dispatched V) → (ℕ → ℕ) → ℕ → ℕ → Outcome V
  unfolding after_retry
  dispatch_from stopped once delay zero attempt =
      if stopped attempt
      then record { result = failed "cancelled"; dispatches = 0; delays = []; attempt = attempt }
      else record { result = once attempt; dispatches = 1; delays = []; attempt = attempt }
  dispatch_from stopped once delay (suc left) attempt =
      let retried = dispatch_from stopped once delay left (attempt + 1) in
      if stopped attempt
      then record { result = failed "cancelled"; dispatches = 0; delays = []; attempt = attempt }
      else elim (once attempt) [
        | done v ↦ record { result = done v; dispatches = 1; delays = []; attempt = attempt }
        | failed e ↦ after_retry (delay (attempt + 1)) retried
      ]

  -- `next_delay_seconds` with its default bounds, 1 and 30.
  unfoldable pub dispatch_with_retries :
      (ℕ → Bool) → (ℕ → Dispatched V) → (ℕ → ℕ) → RetryPolicy → ℕ → Outcome V
  unfolding dispatch_from next_delay_seconds
  dispatch_with_retries stopped once uniform retry_policy max_retries =
      dispatch_from stopped once (λ attempt. next_delay_seconds uniform retry_policy attempt 1 30)
        max_retries 0
