-- ===== src/Service/ContainerJobs/Attempts.antt =====
-- How often the jobs of container_runtime.py are retried.
use activex_endpoint.Prelude.{
  ℕ, ◌+◌, ◌≤◌, String, List, [], ◌∷◌, arith, ltb, if◌then◌else◌, ◌==◌, string_eq, Bool-cases, inl,
  inr, some, filter, is_empty, option_eq,
}
use activex_endpoint.Prelude.Dict
use activex_endpoint.Prelude.Dict.{Dict}
use activex_endpoint.Prelude.Outcome.{err}
use activex_endpoint.Service.ContainerJobs.{
  RuntimeError, crash, timeout, cancelled, Outcome, retried, completed, Runtime, ContainerHandle,
  QueuedJob, attempts_of, retry_or_finalize, perform_retry, clear_attempts, is_gone, recycle,
  retry_queued, fail_queued, handle_crash, handle_timeout, cancel_running, cancel, is_job,
}

-- What happens to jobs, in any interleaving: a container crashes or runs out of time under a job, a
-- retry could not be placed, a result arrives, a container does not become ready for its first job,
-- or a job is cancelled among the handles that there are.
pub data Incident : Type 0 where
  crashes times_out : ContainerHandle → String → Incident
  unplaced answered not_ready : String → RuntimeError → Incident
  cancels : String → List ContainerHandle → Incident

-- `on_complete`, and nothing else.
unfoldable pub completes : Runtime → String → RuntimeError → Runtime
completes rt j e = record rt { outcomes = completed j e ∷ rt.outcomes }

-- With one limit for all jobs. An answer is logged as the completion that it is.
unfoldable pub meet : ℕ → Runtime → Incident → Runtime
unfolding handle_crash handle_timeout perform_retry clear_attempts completes cancel
meet max_retries rt (crashes handle j) = (handle_crash rt handle max_retries j).0
meet max_retries rt (times_out handle j) = (handle_timeout rt handle max_retries j).0
meet max_retries rt (unplaced j e) = perform_retry {A = Unit} rt j (err e)
meet max_retries rt (answered j e) = completes (clear_attempts rt j) j e
meet max_retries rt (not_ready j e) = completes rt j e
meet max_retries rt (cancels j handles) = (cancel rt j handles).0

unfoldable pub meet_all : ℕ → Runtime → List Incident → Runtime
meet_all max_retries rt [] = rt
meet_all max_retries rt (i ∷ is) = meet_all max_retries (meet max_retries rt i) is

-- The retries of a job since it last completed.
unfoldable pub streak : String → List Outcome → ℕ
streak j [] = 0
streak j (retried k ∷ log) = let rest = streak j log in if k == j then rest + 1 else rest
streak j (completed k e ∷ log) = let rest = streak j log in if k == j then 0 else rest

-- The retries of a job are among the attempts that are kept for it, which are within the limit.
record Counts (max_retries : ℕ) (rt : Runtime) : Type 0 where
  counted : (j : String) → streak j rt.outcomes ≤ attempts_of (Dict.get rt.attempts j)
  bounded : (j : String) → attempts_of (Dict.get rt.attempts j) ≤ max_retries

retry_or_finalize-Counts :
    (m : ℕ) (rt : Runtime) (k : String) (e : RuntimeError)
    → Counts m rt
    → Counts m (retry_or_finalize rt m k e)
unfolding streak retry_or_finalize
retry_or_finalize-Counts m rt k e c =
    elim (Bool-cases (ltb (attempts_of (Dict.get rt.attempts k)) m)) [
      | inl more ↦
          let kept = Dict.get-put rt.attempts k in
          rw (more, retry_or_finalize)
            (record {
              counted = λ j. ground (
                arith,
                kept j (attempts_of (Dict.get rt.attempts k) + 1),
                c.counted j,
                string_eq.beq_iff k j,
              );
              bounded = λ j.
                  ground
                    (arith, kept j (attempts_of (Dict.get rt.attempts k) + 1), c.bounded j, more);
            })
      | inr spent ↦
          rw (spent, retry_or_finalize)
            (record {
              counted = λ j. ground (arith, Dict.get-pop rt.attempts k j, c.counted j);
              bounded = λ j. ground (arith, Dict.get-pop rt.attempts k j, c.bounded j);
            })
    ]

forgotten-Counts :
    (m : ℕ) (rt : Runtime) (k : String) (e : RuntimeError)
    → Counts m rt
    → Counts m (completes (clear_attempts rt k) k e)
unfolding completes clear_attempts streak
forgotten-Counts m rt k e c = record {
  counted = λ j. ground (arith, Dict.get-pop rt.attempts k j, c.counted j);
  bounded = λ j. ground (arith, Dict.get-pop rt.attempts k j, c.bounded j);
}

completes-Counts :
    (m : ℕ) (rt : Runtime) (k : String) (e : RuntimeError)
    → Counts m rt
    → Counts m (completes rt k e)
unfolding completes streak
completes-Counts m rt k e c = record {
  counted = λ j. ground (arith, c.counted j);
  bounded = c.bounded;
}

retry_queued-Counts :
    (m : ℕ) (rt : Runtime) (e : RuntimeError) (jobs : List QueuedJob)
    → Counts m rt
    → Counts m (retry_queued rt m e jobs)
unfolding retry_queued
retry_queued-Counts m rt e [] c = c
retry_queued-Counts m rt e (q ∷ jobs) c =
    retry_queued-Counts m (retry_or_finalize rt m q.job_id e) e jobs
      (retry_or_finalize-Counts m rt q.job_id e c)

fail_queued-Counts :
    (m : ℕ) (rt : Runtime) (jobs : List QueuedJob) → Counts m rt → Counts m (fail_queued rt jobs)
unfolding fail_queued completes
fail_queued-Counts m rt [] c = c
fail_queued-Counts m rt (q ∷ jobs) c =
    fail_queued-Counts m (completes rt q.job_id crash) jobs (completes-Counts m rt q.job_id crash c)

recycle-Counts :
    (m : ℕ) (rt : Runtime) (h : ContainerHandle) (reason : String)
    → Counts m rt
    → Counts m (recycle rt h reason)
unfolding recycle
recycle-Counts m rt h reason c = record { counted = c.counted; bounded = c.bounded }

cancel_running-Counts :
    (m : ℕ) (rt : Runtime) (h : ContainerHandle) (j : String)
    → Counts m rt
    → Counts m (cancel_running rt h j).0
unfolding cancel_running completes
cancel_running-Counts m rt h j c =
    let stopped = recycle rt h "cancelled" in
    fail_queued-Counts m (completes (clear_attempts stopped j) j cancelled) h.job_queue
      (forgotten-Counts m stopped j cancelled (recycle-Counts m rt h "cancelled" c))

cancel-Counts :
    (m : ℕ) (rt : Runtime) (j : String) (handles : List ContainerHandle)
    → Counts m rt
    → Counts m (cancel rt j handles).0
unfolding cancel completes
cancel-Counts m rt j [] c = c
cancel-Counts m rt j (h ∷ handles) c = elim (Bool-cases (option_eq.beq h.current_job_id (some j))) [
  | inl in_flight ↦ simp in_flight (cancel_running-Counts m rt h j c)
  | inr other ↦ elim (Bool-cases (is_empty (filter (λ job. is_job j job) h.job_queue))) [
    | inl nowhere ↦ simp (other, nowhere) (cancel-Counts m rt j handles c)
    | inr waiting ↦ simp (other, waiting) (completes-Counts m rt j cancelled c)
  ]
]

drained-Counts :
    (m : ℕ) (rt : Runtime) (h : ContainerHandle) (j reason : String) (e : RuntimeError)
    → Counts m rt
    → Counts m (retry_queued (retry_or_finalize (recycle rt h reason) m j e) m crash h.job_queue)
drained-Counts m rt h j reason e c =
    retry_queued-Counts m (retry_or_finalize (recycle rt h reason) m j e) crash h.job_queue
      (retry_or_finalize-Counts m (recycle rt h reason) j e (recycle-Counts m rt h reason c))

handle_crash-Counts :
    (m : ℕ) (rt : Runtime) (h : ContainerHandle) (j : String)
    → Counts m rt
    → Counts m (handle_crash rt h m j).0
unfolding handle_crash
handle_crash-Counts m rt h j c = elim (Bool-cases (is_gone h.status)) [
  | inl gone ↦ simp (gone, handle_crash) c
  | inr there ↦ simp (there, handle_crash) (drained-Counts m rt h j "crashed" crash c)
]

handle_timeout-Counts :
    (m : ℕ) (rt : Runtime) (h : ContainerHandle) (j : String)
    → Counts m rt
    → Counts m (handle_timeout rt h m j).0
unfolding handle_timeout
handle_timeout-Counts m rt h j c = elim (Bool-cases (is_gone h.status)) [
  | inl gone ↦ simp (gone, handle_timeout) c
  | inr there ↦ simp (there, handle_timeout) (drained-Counts m rt h j "timeout" timeout c)
]

meet-Counts : (m : ℕ) (rt : Runtime) (i : Incident) → Counts m rt → Counts m (meet m rt i)
unfolding meet perform_retry completes clear_attempts
meet-Counts m rt (crashes h j) c = handle_crash-Counts m rt h j c
meet-Counts m rt (times_out h j) c = handle_timeout-Counts m rt h j c
meet-Counts m rt (unplaced k e) c = forgotten-Counts m rt k e c
meet-Counts m rt (answered k e) c = forgotten-Counts m rt k e c
meet-Counts m rt (not_ready k e) c = completes-Counts m rt k e c
meet-Counts m rt (cancels j handles) c = cancel-Counts m rt j handles c

meet_all-Counts :
    (max_retries : ℕ) (rt : Runtime) (is : List Incident)
    → Counts max_retries rt
    → Counts max_retries (meet_all max_retries rt is)
unfolding meet_all
meet_all-Counts m rt [] c = c
meet_all-Counts m rt (i ∷ is) c = meet_all-Counts m (meet m rt i) is (meet-Counts m rt i c)

abbrev pub fresh : Runtime
fresh = record { attempts = []; outcomes = []; released = []; dismissals = [] }

-- However containers crash and run out of time, retries fail, results arrive, containers do not
-- become ready and jobs are cancelled, in whatever order: no job is retried more often than the limit
-- allows without being completed in between, since those retries are among the attempts that are
-- kept for it, which are never more than the limit.
pub meet_all-streak :
    (max_retries : ℕ) (is : List Incident) (j : String)
    → let rt = meet_all max_retries fresh is in
      (streak j rt.outcomes ≤ attempts_of (Dict.get rt.attempts j))
      × (attempts_of (Dict.get rt.attempts j) ≤ max_retries)
unfolding streak Dict.get
meet_all-streak m is j =
    let start : Counts m fresh = record {
      counted = λ k. omega arith;
      bounded = λ k. omega arith;
    } in
    let c : Counts m (meet_all m fresh is) = meet_all-Counts m fresh is start in
    (c.counted j, c.bounded j)
