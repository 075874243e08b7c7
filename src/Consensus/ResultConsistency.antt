-- ===== src/Consensus/ResultConsistency.antt =====
-- axo_endpoint/core/consensus/result_consistency.py. `attempt_fn` is the sequence of its results, the
-- waits are what the call returns beside its result. `reverify_fn` is the list of the job ids that it
-- was called with. Times are ticks.
pub mod Retry
pub mod Sweep
use activex_endpoint.Prelude.{
  ℕ, zero, suc, ◌+◌, ◌*◌, ◌%◌, ◌/◌, ◌^◌, max, min, String, Bool, true, false, Option, none, some,
  List, [], ◌∷◌, ◌++◌, map, ltb, leb, if◌then◌else◌, length, range_from, is_empty, ◌||◌, ◌==◌,
  string_eq,
}
use activex_endpoint.Prelude.Dict
use activex_endpoint.Prelude.Dict.{Dict, keys}
use activex_endpoint.Prelude.Sets.{contains}

push_from : (ℕ → Bool) → ℕ → ℕ → ℕ → ℕ → Bool × List ℕ
push_from attempt_fn max_retries base zero attempt = (false, [])
push_from attempt_fn max_retries base (suc rounds) attempt =
    let (done, waits) = push_from attempt_fn max_retries base rounds (attempt + 1) in
    if attempt_fn attempt
    then (true, [])
    else (done, if ltb (attempt + 1) max_retries then (base * 2 ^ attempt) ∷ waits else waits)

-- The result, and the gaps that it slept between attempts.
unfoldable pub push_with_retry : (ℕ → Bool) → ℕ → ℕ → Bool × List ℕ
unfolding push_from
push_with_retry attempt_fn max_retries backoff_base_seconds =
    push_from attempt_fn max_retries backoff_base_seconds (max 1 max_retries) 0

pub data CopyState : Type 0 where
  synced inconsistent : CopyState

pub record ResultConsistencyStore : Type 0 where
  pub states : Dict String CopyState
  pub hashes : Dict String String

unfoldable pub mark_synced : ResultConsistencyStore → String → String → ResultConsistencyStore
mark_synced s job_id result_hash = record {
  states = Dict.put s.states job_id synced;
  hashes = Dict.put s.hashes job_id result_hash;
}

unfoldable pub mark_inconsistent : ResultConsistencyStore → String → ResultConsistencyStore
mark_inconsistent s job_id = record s { states = Dict.put s.states job_id inconsistent }

unfoldable pub get_state : ResultConsistencyStore → String → Option CopyState
get_state s job_id = Dict.get s.states job_id

unfoldable pub get_hash : ResultConsistencyStore → String → Option String
get_hash s job_id = Dict.get s.hashes job_id

unfoldable pub all_job_ids : ResultConsistencyStore → List String
all_job_ids s = keys s.states

-- `last_run_at` is `none` for minus infinity.
pub record ResultConsistencySweeper : Type 0 where
  pub chunk_size : ℕ
  pub syncing : Bool
  pub cursor : ℕ
  pub priority : List String
  pub last_run_at : Option ℕ

-- `__init__`
unfoldable pub init : ℕ → ResultConsistencySweeper
init chunk_size = record {
  chunk_size = max 1 chunk_size;
  syncing = false;
  cursor = 0;
  priority = [];
  last_run_at = none;
}

unfoldable pub request_priority_check : ResultConsistencySweeper → String → ResultConsistencySweeper
request_priority_check s job_id =
    if contains s.priority job_id then s else record s { priority = s.priority ++ job_id ∷ [] }

item_or : List String → ℕ → String → String
item_or [] i d = d
item_or (x ∷ xs) zero d = x
item_or (x ∷ xs) (suc i) d = item_or xs i d

-- `list(dict.fromkeys(xs))`, after `seen`
dedupe : List String → List String → List String
dedupe seen [] = []
dedupe seen (x ∷ xs) =
    let fresh = dedupe (x ∷ seen) xs in
    let again = dedupe seen xs in if contains seen x then again else x ∷ fresh

-- The batch of `_run_step`: `chunk_size` ids from the cursor on, round and round.
unfoldable pub batch : ℕ → ℕ → List String → List String
unfolding item_or
batch chunk_size cursor ids =
    map (λ i. item_or ids ((cursor % length ids + i) % length ids) "")
      (range_from 0 (min chunk_size (length ids)))

-- The sweeper after the step, and the job ids that were verified again.
unfoldable pub run_step :
    ResultConsistencySweeper → ResultConsistencyStore → ResultConsistencySweeper × List String
unfolding batch dedupe
run_step s store =
    let ids = all_job_ids store in
    let next = batch s.chunk_size s.cursor ids in
    if is_empty ids then (record s { priority = [] }, dedupe [] (s.priority ++ [])) else (
      record s { priority = []; cursor = (s.cursor % length ids + length next) % length ids },
      dedupe [] (s.priority ++ next),
    )

due : ResultConsistencySweeper → ℕ → ℕ → Bool
due s now interval_seconds = elim s.last_run_at [
  | none ↦ true
  | some last ↦ leb (last + interval_seconds) now
]

-- The sweeper after the call, whether it ran, and what was verified again.
unfoldable pub maybe_run_periodic :
    ResultConsistencySweeper
    → ResultConsistencyStore
    → ℕ
    → ℕ
    → ResultConsistencySweeper × Bool × List String
unfolding due
maybe_run_periodic s store now interval_seconds =
    let (s', targets) = run_step (record s { last_run_at = some now; syncing = true }) store in
    if s.syncing
    then (s, false, [])
    else if due s now interval_seconds
    then (record s' { syncing = false }, true, targets)
    else (s, false, [])

-- Whether the pass was started. The pass itself runs on a thread.
unfoldable pub start_manual_sync : ResultConsistencySweeper → ResultConsistencySweeper × Bool
start_manual_sync s = if s.syncing then (s, false) else (record s { syncing = true }, true)

unfoldable pub is_syncing : ResultConsistencySweeper → Bool
is_syncing s = s.syncing

unfoldable pub run_steps :
    ℕ → ResultConsistencySweeper → ResultConsistencyStore → ResultConsistencySweeper × List String
run_steps zero s store = (s, [])
run_steps (suc steps) s store =
    let (s', targets) = run_step s store in
    let (s'', later) = run_steps steps s' store in (s'', targets ++ later)

-- The store is taken to stand still during the pass. The constructor keeps `chunk_size` above 0.
unfoldable pub run_manual_pass :
    ResultConsistencySweeper → ResultConsistencyStore → ResultConsistencySweeper × List String
run_manual_pass s store =
    let steps = max 1 (length (all_job_ids store) / s.chunk_size + 1) in
    let (s', targets) = run_steps steps s store in (record s' { syncing = false }, targets)
