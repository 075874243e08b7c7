-- ===== src/Service/ContainerJobs/Losses.antt =====
-- What becomes of the jobs of a container of container_runtime.py that is lost.
use activex_endpoint.Prelude.{
  ℕ, ◌≡◌, refl, ap, ◌∙◌, String, false, List, [], ◌∷◌, map, ltb, Bool-cases, inl, inr, string_eq,
}
use activex_endpoint.Prelude.Dict
use activex_endpoint.Service.ContainerJobs.{
  QueuedJob, ContainerHandle, RuntimeError, crash, job_of, Runtime, attempts_of, retry_or_finalize,
  is_gone, recycle, retry_queued, handle_crash, handle_timeout,
}

-- The items, each put before the others in turn.
abbrev pub onto : List String → List String → List String
onto [] log = log
onto (x ∷ xs) log = onto xs (x ∷ log)

abbrev pub jobs_logged : Runtime → List String
jobs_logged rt = map job_of rt.outcomes

retry_or_finalize-logs :
    (rt : Runtime) (m : ℕ) (j : String) (e : RuntimeError)
    → (jobs_logged (retry_or_finalize rt m j e) ≡ j ∷ jobs_logged rt)
      × ((retry_or_finalize rt m j e).released ≡ rt.released)
unfolding retry_or_finalize
retry_or_finalize-logs rt m j e = elim (Bool-cases (ltb (attempts_of (Dict.get rt.attempts j)) m)) [
  | inl more ↦ rw more (refl, refl)
  | inr spent ↦ rw spent (refl, refl)
]

retry_queued-logs :
    (rt : Runtime) (m : ℕ) (e : RuntimeError) (jobs : List QueuedJob)
    → (jobs_logged (retry_queued rt m e jobs) ≡ onto (map (λ q. q.job_id) jobs) (jobs_logged rt))
      × ((retry_queued rt m e jobs).released ≡ rt.released)
unfolding retry_queued
retry_queued-logs rt m e [] = (refl, refl)
retry_queued-logs rt m e (q ∷ jobs) =
    let (rest, kept) = retry_queued-logs (retry_or_finalize rt m q.job_id e) m e jobs in
    let (one, same) = retry_or_finalize-logs rt m q.job_id e in
    (rest ∙ ap (onto (map (λ (x : QueuedJob). x.job_id) jobs)) one, kept ∙ same)

-- A crash of a container that is not gone yet gives its job and each job queued behind it, in
-- their order, exactly one outcome, a retry or a completion, and releases the slot once; a crash
-- or a timeout that is noticed after that changes nothing.
pub handle_crash-once :
    (rt : Runtime) (handle : ContainerHandle) (max_retries : ℕ) (job_id other : String)
    → is_gone handle.status ≡ false
    → let (rt', gone) = handle_crash rt handle max_retries job_id in
      (jobs_logged rt' ≡ onto (job_id ∷ map (λ q. q.job_id) handle.job_queue) (jobs_logged rt))
      × (rt'.released ≡ (handle.function_id, handle.version, handle.pool_index) ∷ rt.released)
      × (handle_crash rt' gone max_retries other ≡ (rt', gone))
      × (handle_timeout rt' gone max_retries other ≡ (rt', gone))
unfolding handle_crash handle_timeout recycle is_gone
handle_crash-once rt handle m j other alive =
    let rt1 = recycle rt handle "crashed" in
    let (one, same) = retry_or_finalize-logs rt1 m j crash in
    let (rest, kept) =
      retry_queued-logs (retry_or_finalize rt1 m j crash) m crash handle.job_queue in
    rw alive (
      rest ∙ ap (onto (map (λ (x : QueuedJob). x.job_id) handle.job_queue)) one,
      kept ∙ same,
      refl,
      refl,
    )
