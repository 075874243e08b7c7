-- ===== src/Choreography/Graph.antt =====
-- axo_vem/axo_vem/domain/choreography/graph_ops.py, with the nodes and edges of
-- axo_shared/axo_shared/events/models.py. A node's position and an edge's id carry no meaning here
-- and are left out.
pub mod Rounds
pub mod Waves
pub mod Edges
pub mod Downstream
use activex_endpoint.Prelude.{
  ℕ, zero, suc, ◌+◌, ◌*◌, String, Bool, true, false, not, ◌&&◌, Option, none, some, List, [], ◌∷◌,
  ◌++◌, length, filter, is_empty, if◌then◌else◌, string_eq,
}
use activex_endpoint.Prelude.Dict
use activex_endpoint.Prelude.Dict.{Dict, keys}
use activex_endpoint.Prelude.Sets.{contains, subset}
use activex_endpoint.Prelude.Order.{sorted_set, string_ord}

pub data NodeKind : Type 0 where
  function bucket : NodeKind

pub data RetryPolicy : Type 0 where
  constant exponential_backoff jitter : RetryPolicy

pub record ChoreographyNode : Type 0 where
  pub node_id : String
  pub kind : NodeKind
  pub function_id : Option String
  pub function_version : Option ℕ
  pub max_retries : ℕ
  pub retry_policy : RetryPolicy
  pub bucket_name : Option String
  pub selected_items : Option (List (String × ℕ))

pub data EdgeKind : Type 0 where
  fn_to_fn fn_to_bucket bucket_to_fn : EdgeKind

pub record ChoreographyEdge : Type 0 where
  pub source_node_id : String
  pub target_node_id : String
  pub kind : EdgeKind
  pub target_param : Option String
  pub parallelism : ℕ

pub record ChoreographyGraph : Type 0 where
  pub nodes : List ChoreographyNode
  pub edges : List ChoreographyEdge

abbrev pub or_empty : Option (List String) → List String
or_empty none = []
or_empty (some xs) = xs

-- `d.setdefault(key, set()).add(x)`
unfoldable pub add_to : Dict String (List String) → String → String → Dict String (List String)
add_to d key x =
    let old = or_empty (Dict.get d key) in Dict.put d key (if contains old x then old else x ∷ old)

-- `{n.node_id: set() for n in nodes}`, after `d`
unfoldable pub no_deps :
    Dict String (List String) → List ChoreographyNode → Dict String (List String)
no_deps d [] = d
no_deps d (n ∷ nodes) = no_deps (Dict.put d n.node_id []) nodes

unfoldable pub add_dependencies :
    Dict String (List String) → List ChoreographyEdge → Dict String (List String)
add_dependencies d [] = d
add_dependencies d (e ∷ edges) = add_dependencies (add_to d e.target_node_id e.source_node_id) edges

unfoldable pub dependencies_of : ChoreographyGraph → Dict String (List String)
dependencies_of g = add_dependencies (no_deps [] g.nodes) g.edges

unfoldable pub add_dependents :
    Dict String (List String) → List ChoreographyEdge → Dict String (List String)
add_dependents d [] = d
add_dependents d (e ∷ edges) = add_dependents (add_to d e.source_node_id e.target_node_id) edges

unfoldable pub dependents_of : ChoreographyGraph → Dict String (List String)
dependents_of g = add_dependents (no_deps [] g.nodes) g.edges

-- `[node_id for node_id, deps in remaining.items() if deps <= done]`
unfoldable pub ready_nodes : Dict String (List String) → List String → List String
ready_nodes [] done = []
ready_nodes ((node_id, deps) ∷ remaining) done =
    let rest = ready_nodes remaining done in if subset deps done then node_id ∷ rest else rest

-- `for node_id in ready: del remaining[node_id]`
unfoldable pub remove_all : Dict String (List String) → List String → Dict String (List String)
remove_all d [] = d
remove_all d (k ∷ ks) = remove_all (Dict.pop d k) ks

pub data WaveResult : Type 0 where
  waves : List (List String) → WaveResult
  -- the ValueError, with the nodes that are left
  cycle : List String → WaveResult
  out_of_fuel : WaveResult

unfoldable pub wave_then : List String → WaveResult → WaveResult
wave_then w (waves ws) = waves (w ∷ ws)
wave_then w (cycle left) = cycle left
wave_then w out_of_fuel = out_of_fuel

-- The loop of `topological_waves`. A round that goes on takes at least one node.
unfoldable pub waves_from : ℕ → Dict String (List String) → List String → WaveResult
unfolding wave_then
waves_from fuel [] done = waves []
waves_from zero (n ∷ remaining) done = out_of_fuel
waves_from (suc fuel) (n ∷ remaining) done =
    let ready = ready_nodes (n ∷ remaining) done in
    let rest = waves_from fuel (remove_all (n ∷ remaining) ready) (ready ++ done) in
    if is_empty ready
    then cycle (sorted_set (keys (n ∷ remaining)))
    else wave_then (sorted_set ready) rest

unfoldable pub topological_waves : ChoreographyGraph → WaveResult
topological_waves g = let deps = dependencies_of g in waves_from (length deps) deps []

-- The loop of `downstream_of`, on fuel. `pop` takes from the end; the frontier is held reversed.
unfoldable pub reach_from :
    ℕ → Dict String (List String) → List String → List String → Option (List String)
reach_from fuel dependents [] affected = some affected
reach_from zero dependents (current ∷ frontier) affected = none
reach_from (suc fuel) dependents (current ∷ frontier) affected =
    let skip = reach_from fuel dependents frontier affected in
    let visit =
      reach_from fuel dependents (or_empty (Dict.get dependents current) ++ frontier)
        (current ∷ affected) in
    if contains affected current then skip else visit

-- How many entries the unvisited keys can still push.
unfoldable pub pending : Dict String (List String) → List String → ℕ
pending [] affected = 0
pending ((key, xs) ∷ d) affected =
    (if contains affected key then 0 else length xs) + pending d affected

-- Every round takes one entry, and a key pushes its entries once: see `Downstream`.
unfoldable pub downstream_of : ChoreographyGraph → String → Option (List String)
unfolding reach_from
downstream_of g node_id =
    let dependents = dependents_of g in
    let frontier = or_empty (Dict.get dependents node_id) in
    reach_from (length frontier + pending dependents []) dependents frontier []
