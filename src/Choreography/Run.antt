-- ===== src/Choreography/Run.antt =====
-- axo_vem/axo_vem/domain/choreography/run.py, and `execute`, `_execute_run` and the statuses of
-- `_run_node` of axo_vem/axo_vem/application/choreography/run_choreography.py, and
-- cancel_choreography_run.py. Whether a function node succeeds is an argument, and so is what the
-- stop flag shows before each wave. A wave's nodes all run before the first result is looked at.
pub mod Cascade
use activex_endpoint.Prelude.{
  ℕ, zero, suc, ◌+◌, String, Bool, true, false, not, ◌&&◌, ◌||◌, Option, none, some, List, [], ◌∷◌,
  ◌++◌, filter, is_empty, if◌then◌else◌, string_eq,
}
use activex_endpoint.Prelude.Dict
use activex_endpoint.Prelude.Dict.{Dict}
use activex_endpoint.Prelude.Sets.{contains}
use activex_endpoint.Prelude.Outcome.{Result, ok, err}
use activex_endpoint.Choreography.Graph.{
  ChoreographyNode, ChoreographyGraph, NodeKind, function, bucket, or_empty, WaveResult, waves,
  cycle, out_of_fuel, topological_waves, downstream_of,
}
use activex_endpoint.Choreography.Concurrency.{ConcurrencyViolation}

pub data RunStatus : Type 0 where
  pending queued running completed failed cancelled : RunStatus

abbrev pub is_pending : RunStatus → Bool
is_pending pending = true
is_pending _ = false

-- `status in ACTIVE_RUN_STATUSES`
abbrev pub is_active : RunStatus → Bool
is_active pending = true
is_active running = true
is_active _ = false

pub record ChoreographyRun : Type 0 where
  pub status : RunStatus
  pub node_states : Dict String RunStatus

-- The local variables of `_execute_run`, and the waves that were run, the last first, each node with
-- its success.
pub record Progress : Type 0 where
  pub node_states : Dict String RunStatus
  pub cancelled_or_failed : List String
  pub any_failed : Bool
  pub ran : List (List (String × Bool))

unfoldable pub find_node : List ChoreographyNode → String → Option ChoreographyNode
find_node [] node_id = none
find_node (n ∷ nodes) node_id = elim (find_node nodes node_id) [
  | some later ↦ some later
  | none ↦ if string_eq.beq n.node_id node_id then some n else none
]

-- `_run_node`: a bucket is complete at once.
unfoldable pub run_node : (String → Bool) → ChoreographyNode → Bool
run_node succeeds n = elim n.kind [ bucket ↦ true | function ↦ succeeds n.node_id ]

-- The results of a wave; `none` is the KeyError of a node that the graph does not declare.
unfoldable pub run_wave :
    List ChoreographyNode → (String → Bool) → List String → Option (List (String × Bool))
unfolding find_node run_node
run_wave nodes succeeds [] = some []
run_wave nodes succeeds (k ∷ ks) =
    let rest = run_wave nodes succeeds ks in
    elim (find_node nodes k) [
      | none ↦ none
      | some n ↦ (elim rest [
        | none ↦ none
        | some results ↦ some ((k, run_node succeeds n) ∷ results)
      ])
    ]

-- The status that `_run_node` leaves.
unfoldable pub mark_ran : Dict String RunStatus → List (String × Bool) → Dict String RunStatus
mark_ran states [] = states
mark_ran states ((k, ok_) ∷ results) =
    mark_ran (Dict.put states k (if ok_ then completed else failed)) results

unfoldable pub cancel_pending : Dict String RunStatus → List String → Dict String RunStatus
cancel_pending states [] = states
cancel_pending states (k ∷ ks) = elim (Dict.get states k) [
  | none ↦ cancel_pending states ks
  | some s ↦ cancel_pending (if is_pending s then Dict.put states k cancelled else states) ks
]

-- The loop over the results: a failed node cancels what is downstream of it.
unfoldable pub settle : ChoreographyGraph → Progress → List (String × Bool) → Progress
unfolding cancel_pending
settle g p [] = p
settle g p ((k, true) ∷ results) = settle g p results
settle g p ((k, false) ∷ results) =
    let newly =
      filter (λ c. not (contains p.cancelled_or_failed c)) (or_empty (downstream_of g k)) in
    settle g
      (record p {
        node_states = cancel_pending p.node_states newly;
        cancelled_or_failed = newly ++ p.cancelled_or_failed;
        any_failed = true;
      })
      results

unfoldable pub run_waves :
    ChoreographyGraph
    → (String → Bool)
    → (ℕ → Bool)
    → ℕ
    → List (List String)
    → Progress
    → Option Progress
unfolding run_wave mark_ran settle
run_waves g succeeds stopped i [] p = some p
run_waves g succeeds stopped i (w ∷ ws) p =
    let runnable = filter (λ k. not (contains p.cancelled_or_failed k)) w in
    let skip = run_waves g succeeds stopped (suc i) ws p in
    if stopped i
    then some p
    else if is_empty runnable
    then skip
    else elim (run_wave g.nodes succeeds runnable) [
      | none ↦ none
      | some results ↦ run_waves g succeeds stopped (suc i) ws (
          settle g
            (record p { node_states = mark_ran p.node_states results; ran = results ∷ p.ran })
            results)
    ]

abbrev pub waves_of : WaveResult → List (List String)
waves_of (waves ws) = ws
waves_of _ = []

-- The ValueError of `topological_waves`
abbrev pub has_cycle : WaveResult → Bool
has_cycle (waves ws) = false
has_cycle _ = true

-- `stopped_at_end` is what the stop flag shows at the end.
unfoldable pub execute_run :
    ChoreographyGraph
    → (String → Bool)
    → (ℕ → Bool)
    → Bool
    → ChoreographyRun
    → Option (ChoreographyRun × Progress)
unfolding run_waves
execute_run g succeeds stopped stopped_at_end run =
    let found = topological_waves g in
    elim (run_waves g succeeds stopped 0 (waves_of found) (record {
      node_states = run.node_states;
      cancelled_or_failed = [];
      any_failed = has_cycle found;
      ran = [];
    })) [
      | none ↦ none
      | some p ↦ some (
        record {
          status = if stopped_at_end then cancelled else if p.any_failed then failed else completed;
          node_states = p.node_states;
        },
        p,
      )
    ]

pub data RunError : Type 0 where
  not_found not_owner run_active run_not_active : RunError
  too_concurrent : List ConcurrencyViolation → RunError

unfoldable pub initial_states :
    Dict String RunStatus → List ChoreographyNode → Dict String RunStatus
initial_states d [] = d
initial_states d (n ∷ nodes) = initial_states (Dict.put d n.node_id pending) nodes

-- The guards of `execute` and the run that it saves; the repositories' answers are the arguments.
unfoldable pub start_run :
    Option ChoreographyGraph
    → (is_owner has_active_run : Bool) → (ChoreographyGraph → List ConcurrencyViolation)
    → Result RunError ChoreographyRun
unfolding initial_states
start_run none is_owner has_active_run validate = err not_found
start_run (some g) is_owner has_active_run validate =
    if not is_owner
    then err not_owner
    else if has_active_run
    then err run_active
    else if is_empty (validate g)
    then ok (record { status = pending; node_states = initial_states [] g.nodes })
    else err (too_concurrent (validate g))

-- `CancelChoreographyRunUseCase.execute`: the run it saves, and the jobs that it sends a cancel for.
-- The owner is checked only if the choreography is still there.
unfoldable pub cancel_run :
    Option ChoreographyRun
    → (choreography_exists is_owner : Bool) → Dict String String
    → Result RunError (ChoreographyRun × Dict String String)
cancel_run none choreography_exists is_owner live_jobs = err not_found
cancel_run (some run) choreography_exists is_owner live_jobs =
    if choreography_exists && not is_owner
    then err not_owner
    else if is_active run.status
    then ok (record run { status = cancelled }, live_jobs)
    else err run_not_active
