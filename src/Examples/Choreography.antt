-- ===== src/Examples/Choreography.antt =====
-- The theorems about choreographies, at concrete inputs.
use activex_endpoint.Prelude.{
  ℕ, String, ◌≡◌, refl, ◌↔◌, Bool, true, false, none, some, List, [], ◌∷◌, All, ◌==◌, string_eq,
  not, ltb, if◌then◌else◌,
}
use activex_endpoint.Prelude.Dict
use activex_endpoint.Prelude.Dict.{Dict}
use activex_endpoint.Prelude.Sets.{contains, subset}
use activex_endpoint.Prelude.Order.{sorted_set, insert_sorted, str_le}
use activex_endpoint.Choreography.Graph.{
  ChoreographyNode, ChoreographyEdge, ChoreographyGraph, function, constant, exponential_backoff,
  fn_to_fn, dependencies_of, dependents_of, topological_waves, downstream_of, waves_from,
  ready_nodes, remove_all, wave_then, no_deps, add_dependencies, add_dependents, add_to, reach_from,
  pending,
}
use activex_endpoint.Choreography.Graph.Waves.{Sound, topological_waves-Sound}
use activex_endpoint.Choreography.Graph.Downstream.{EdgePath, downstream_of_iff}
use activex_endpoint.Choreography.Concurrency.{check_concurrency}
use activex_endpoint.Choreography.Concurrency.Check.{Fits, check_concurrency_iff}
use activex_endpoint.Choreography.Retries.{
  Dispatched, done, failed, dispatch_with_retries, next_delay_seconds,
}
use activex_endpoint.Choreography.Retries.Bounds.{Retries, dispatch_with_retries-Retries}
use activex_endpoint.Choreography.Run.{
  ChoreographyRun, Progress, RunStatus, execute_run, run_waves, run_wave, find_node, run_node,
  mark_ran, settle, cancel_pending,
}
use activex_endpoint.Choreography.Run.Cascade.{Cascades, execute_run-Cascades}

node : String → ChoreographyNode
node id = record {
  node_id = id;
  kind = function;
  function_id = some "resize";
  function_version = none;
  max_retries = 2;
  retry_policy = constant;
  bucket_name = none;
  selected_items = none;
}

edge : String → String → ChoreographyEdge
edge a b = record {
  source_node_id = a;
  target_node_id = b;
  kind = fn_to_fn;
  target_param = none;
  parallelism = 1;
}

-- a → b → c
graph : ChoreographyGraph
unfolding node edge
graph = record {
  nodes = node "a" ∷ node "b" ∷ node "c" ∷ [];
  edges = edge "a" "b" ∷ edge "b" "c" ∷ [];
}

topological_waves-Sound_example :
    Sound (dependencies_of graph) (dependencies_of graph) [] (topological_waves graph)
topological_waves-Sound_example = topological_waves-Sound graph

downstream_of_iff_example :
    (affected : List String) × (downstream_of graph "a" ≡ some affected)
    × ((x : String) → (contains affected x ≡ true) ↔ EdgePath graph.edges "a" x)
downstream_of_iff_example = downstream_of_iff graph "a"

abbrev limits : Dict String ℕ
limits = ("resize", 2) ∷ []

check_concurrency_iff_example :
    (check_concurrency graph limits ≡ []) ↔ All (Fits graph.edges limits) graph.nodes
check_concurrency_iff_example = check_concurrency_iff graph limits

third : ℕ → Dispatched ℕ
third n = if ltb 1 n then done 7 else failed "timeout"

dispatch_with_retries-Retries_example :
    Retries
      (λ i. false)
      third
      (λ i. next_delay_seconds (λ b. b) exponential_backoff i 1 30)
      30
      5
      0
      (dispatch_with_retries (λ i. false) third (λ b. b) exponential_backoff 5)
dispatch_with_retries-Retries_example =
    dispatch_with_retries-Retries (λ i. false) third (λ b. b) exponential_backoff 5

abbrev run : ChoreographyRun
run = record {
  status = RunStatus.pending;
  node_states = ("a", RunStatus.pending) ∷ ("b", RunStatus.pending) ∷ ("c", RunStatus.pending) ∷ [];
}

all_but_b : String → Bool
all_but_b k = not (k == "b")

abbrev at_end : Progress
at_end = record {
  node_states =
      ("a", RunStatus.completed) ∷ ("b", RunStatus.failed) ∷ ("c", RunStatus.cancelled) ∷ [];
  cancelled_or_failed = "c" ∷ [];
  any_failed = true;
  ran = (("b", false) ∷ []) ∷ (("a", true) ∷ []) ∷ [];
}

-- The run fails, and the last node is never run.
runs :
    execute_run graph all_but_b (λ i. false) false run
    ≡ some (record run { status = RunStatus.failed; node_states = at_end.node_states }, at_end)
unfolding execute_run run_waves run_wave find_node run_node mark_ran settle cancel_pending
    topological_waves waves_from ready_nodes remove_all wave_then dependencies_of no_deps
    add_dependencies add_to downstream_of dependents_of add_dependents reach_from pending sorted_set
    insert_sorted str_le subset contains Dict.get Dict.put Dict.pop graph node edge all_but_b
runs = refl

execute_run-Cascades_example : Cascades graph at_end.ran
execute_run-Cascades_example =
    execute_run-Cascades graph all_but_b (λ i. false) false run
      {run' = record run { status = RunStatus.failed; node_states = at_end.node_states }}
      {p = at_end} runs
