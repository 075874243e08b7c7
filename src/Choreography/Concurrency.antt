-- ===== src/Choreography/Concurrency.antt =====
-- axo_vem/axo_vem/domain/choreography/concurrency_check.py, and `validate` of
-- axo_vem/axo_vem/application/choreography/run_choreography.py.
pub mod Check
use activex_endpoint.Prelude.{
  ℕ, ◌+◌, max, String, Bool, true, false, not, Option, none, some, List, [], ◌∷◌, ◌++◌, ltb,
  if◌then◌else◌, string_eq,
}
use activex_endpoint.Prelude.Dict
use activex_endpoint.Prelude.Dict.{Dict}
use activex_endpoint.Choreography.Graph.{
  ChoreographyNode, ChoreographyEdge, ChoreographyGraph, NodeKind, EdgeKind, function, bucket,
  fn_to_fn, fn_to_bucket, bucket_to_fn,
}

pub record ConcurrencyViolation : Type 0 where
  pub node_id : String
  pub function_id : String
  pub required_concurrency : ℕ
  pub max_concurrency : ℕ

-- The function that a node runs: none for a bucket, or where the id is missing or empty.
unfoldable pub function_of : ChoreographyNode → Option String
function_of node = elim node.kind [
  | bucket ↦ none
  | function ↦ elim node.function_id [
    | none ↦ none
    | some f ↦ if string_eq.beq f "" then none else some f
  ]
]

-- What one inbound edge adds.
unfoldable pub load : ChoreographyEdge → ℕ
load e = elim e.kind [ fn_to_fn ↦ 1 | bucket_to_fn ↦ max 1 e.parallelism | fn_to_bucket ↦ 0 ]

unfoldable pub inbound : String → List ChoreographyEdge → ℕ
unfolding load
inbound node_id [] = 0
inbound node_id (e ∷ edges) =
    let rest = inbound node_id edges in
    if string_eq.beq e.target_node_id node_id then load e + rest else rest

abbrev pub limit : Dict String ℕ → String → ℕ
limit limits f = elim (Dict.get limits f) [ none ↦ 1 | some n ↦ n ]

unfoldable pub check_nodes :
    List ChoreographyEdge → Dict String ℕ → List ChoreographyNode → List ConcurrencyViolation
unfolding function_of inbound
check_nodes edges limits [] = []
check_nodes edges limits (n ∷ nodes) =
    let rest = check_nodes edges limits nodes in
    let required = max (inbound n.node_id edges) 1 in
    elim (function_of n) [
      | none ↦ rest
      | some f ↦
          if ltb (limit limits f) required
          then record {
            node_id = n.node_id;
            function_id = f;
            required_concurrency = required;
            max_concurrency = limit limits f;
          }
            ∷ rest
          else rest
    ]

unfoldable pub check_concurrency : ChoreographyGraph → Dict String ℕ → List ConcurrencyViolation
unfolding check_nodes
check_concurrency g limits = check_nodes g.edges limits g.nodes

-- `(spec or {}).get("max_concurrency", 1)` of the function that the repository finds, where the
-- repository is the lookup of that number.
unfoldable pub limits_of :
    (String → Option ℕ → Option ℕ) → Dict String ℕ → List ChoreographyNode → Dict String ℕ
unfolding function_of
limits_of find limits [] = limits
limits_of find limits (n ∷ nodes) = elim (function_of n) [
  | none ↦ limits_of find limits nodes
  | some f ↦
      limits_of find
        (Dict.put limits f (elim (find f n.function_version) [ none ↦ 1 | some k ↦ k ])) nodes
]

unfoldable pub validate :
    (String → Option ℕ → Option ℕ) → ChoreographyGraph → List ConcurrencyViolation
unfolding limits_of check_concurrency
validate find g = check_concurrency g (limits_of find [] g.nodes)
