-- ===== src/Service/ContainerJobs.antt =====
-- The jobs of axo_endpoint/service/runtime/container_runtime.py: placement, loss, retry and
-- cancellation, with the handles of axo_endpoint/service/container/handle.py. Cluster placement is
-- attached. `dismiss` of the summoner marks the handle; stopping the container is not modelled. What
-- the runtime does to a job stands in `outcomes`, the last first: a retry thread that it starts, or
-- a call of `on_complete`.
pub mod Placement
pub mod Attempts
pub mod Losses
use activex_endpoint.Prelude.{
  ℕ, zero, ◌+◌, String, Bool, true, false, not, ◌||◌, Option, none, some, List, [], ◌∷◌, ◌++◌, map,
  filter, is_empty, ltb, if◌then◌else◌, ◌==◌, nat_eq, string_eq, option_eq, length,
}
use activex_endpoint.Prelude.Dict
use activex_endpoint.Prelude.Dict.{Dict}
use activex_endpoint.Prelude.Outcome.{Result, ok, err}
use activex_endpoint.Storage.Backend.{StorageBackend}
use activex_endpoint.Functions.Params.{Fields}
use activex_endpoint.Functions.Registry.{FunctionRecord, FunctionRegistry, RuntimeSpec}
use activex_endpoint.Consensus.Sync.{key_of}
use activex_endpoint.Consensus.Ledger.{SlotDecision, granted, place, retry}

pub data ContainerStatus : Type 0 where
  starting bootstrapping ready busy idle crashed dismissed : ContainerStatus

-- A queued job, without its scratch directory.
pub record QueuedJob : Type 0 where
  pub job_id : String
  pub params : Fields

pub record ContainerHandle : Type 0 where
  pub function_id : String
  pub version : ℕ
  pub service_name : String
  pub pool_index : ℕ
  pub status : ContainerStatus
  pub current_job_id : Option String
  pub job_queue : List QueuedJob

pub data RuntimeError : Type 0 where
  crash timeout cancelled : RuntimeError
  invocation : String → RuntimeError

pub data Outcome : Type 0 where
  retried : String → Outcome
  completed : String → RuntimeError → Outcome

-- The job of an outcome.
abbrev pub job_of : Outcome → String
job_of (retried j) = j
job_of (completed j e) = j

pub record Runtime : Type 0 where
  pub attempts : Dict String ℕ
  pub outcomes : List Outcome
  pub released : List (String × ℕ × ℕ)
  pub dismissals : List (String × String)

abbrev pub attempts_of : Option ℕ → ℕ
attempts_of none = 0
attempts_of (some n) = n

abbrev retries_of : Option FunctionRecord → ℕ
retries_of none = 0
retries_of (some rec) = (elim rec.runtime_spec [ none ↦ 0 | some spec ↦ spec.max_retries ])

module _ (b : StorageBackend FunctionRecord) where
  -- A registry that was not wired in is `none`.
  unfoldable pub max_retries_for : Option (FunctionRegistry b) → String → Option ℕ → ℕ
  max_retries_for none function_id version = 0
  max_retries_for (some r) function_id version = elim (b.get r.store (key_of function_id version)) [
    | err e ↦ 0
    | ok found ↦ retries_of found
  ]

-- `_retry_or_finalize`, with the limit that `_max_retries_for` found.
unfoldable pub retry_or_finalize : Runtime → ℕ → String → RuntimeError → Runtime
retry_or_finalize rt max_retries job_id error =
    let attempts = attempts_of (Dict.get rt.attempts job_id) in
    if ltb attempts max_retries
    then record rt {
      attempts = Dict.put rt.attempts job_id (attempts + 1);
      outcomes = retried job_id ∷ rt.outcomes;
    }
    else record rt {
      attempts = Dict.pop rt.attempts job_id;
      outcomes = completed job_id error ∷ rt.outcomes;
    }

-- `_perform_retry`, after its call of `invoke`.
unfoldable pub perform_retry : {A : Type 0} → Runtime → String → Result RuntimeError A → Runtime
perform_retry rt job_id (ok placed) = rt
perform_retry rt job_id (err error) = record rt {
  attempts = Dict.pop rt.attempts job_id;
  outcomes = completed job_id error ∷ rt.outcomes;
}

-- A result that arrived: the attempts are forgotten, and the job completes.
unfoldable pub clear_attempts : Runtime → String → Runtime
clear_attempts rt job_id = record rt { attempts = Dict.pop rt.attempts job_id }

unfoldable pub is_gone : ContainerStatus → Bool
is_gone crashed = true
is_gone dismissed = true
is_gone s = false

-- `dismiss` and `release`.
unfoldable pub recycle : Runtime → ContainerHandle → String → Runtime
recycle rt handle reason = record rt {
  dismissals = (handle.service_name, reason) ∷ rt.dismissals;
  released = (handle.function_id, handle.version, handle.pool_index) ∷ rt.released;
}

-- `_retry_or_finalize` of each drained job.
unfoldable pub retry_queued : Runtime → ℕ → RuntimeError → List QueuedJob → Runtime
unfolding retry_or_finalize
retry_queued rt max_retries error [] = rt
retry_queued rt max_retries error (job ∷ jobs) =
    retry_queued (retry_or_finalize rt max_retries job.job_id error) max_retries error jobs

-- `_handle_crash`, with the limit of the handle's function.
unfoldable pub handle_crash : Runtime → ContainerHandle → ℕ → String → Runtime × ContainerHandle
unfolding recycle retry_queued is_gone
handle_crash rt handle max_retries job_id = if is_gone handle.status then (rt, handle) else (
  retry_queued (retry_or_finalize (recycle rt handle "crashed") max_retries job_id crash)
      max_retries crash handle.job_queue,
  record handle { status = dismissed; job_queue = [] },
)

-- `_handle_timeout`: the job timed out, the queued ones lost their container.
unfoldable pub handle_timeout : Runtime → ContainerHandle → ℕ → String → Runtime × ContainerHandle
unfolding recycle retry_queued is_gone
handle_timeout rt handle max_retries job_id = if is_gone handle.status then (rt, handle) else (
  retry_queued (retry_or_finalize (recycle rt handle "timeout") max_retries job_id timeout)
      max_retries crash handle.job_queue,
  record handle { status = dismissed; job_queue = [] },
)

-- `on_complete` of each drained job, which `cancel` does not retry.
unfoldable pub fail_queued : Runtime → List QueuedJob → Runtime
fail_queued rt [] = rt
fail_queued rt (job ∷ jobs) =
    fail_queued (record rt { outcomes = completed job.job_id crash ∷ rt.outcomes }) jobs

-- The in-flight job of the handle is cancelled.
unfoldable pub cancel_running : Runtime → ContainerHandle → String → Runtime × ContainerHandle
unfolding recycle clear_attempts fail_queued
cancel_running rt handle job_id =
    let cleared = clear_attempts (recycle rt handle "cancelled") job_id in
    (
      fail_queued (record cleared { outcomes = completed job_id cancelled ∷ cleared.outcomes })
          handle.job_queue,
      record handle { status = dismissed; job_queue = [] },
    )

unfoldable pub is_job : String → QueuedJob → Bool
is_job job_id job = job.job_id == job_id

-- `cancel`: the runtime and the handles that it leaves, and whether it found the job.
unfoldable pub cancel :
    Runtime → String → List ContainerHandle → Runtime × List ContainerHandle × Bool
unfolding cancel_running is_job
cancel rt job_id [] = (rt, [], false)
cancel rt job_id (handle ∷ handles) =
    let (rt', rest, found) = cancel rt job_id handles in
    let remaining = filter (λ job. not (is_job job_id job)) handle.job_queue in
    let (stopped, gone) = cancel_running rt handle job_id in
    if option_eq.beq handle.current_job_id (some job_id)
    then (stopped, gone ∷ handles, true)
    else if is_empty (filter (λ job. is_job job_id job) handle.job_queue)
    then (rt', handle ∷ rest, found)
    else (
      record rt { outcomes = completed job_id cancelled ∷ rt.outcomes },
      record handle { job_queue = remaining } ∷ handles,
      true,
    )
