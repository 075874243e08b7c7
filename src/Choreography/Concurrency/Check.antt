-- ===== src/Choreography/Concurrency/Check.antt =====
-- The concurrency check of concurrency_check.py, against edges that are counted kind by kind.
use activex_endpoint.Prelude.{
  ℕ, ◌+◌, max, ◌≤◌, String, Bool, true, false, ◌&&◌, ◌≡◌, sym, ◌↔◌, ◌⊎◌, none, some, List, [], ◌∷◌,
  All, arith, string_eq, Option-cases, inl, inr, length, filter, ◌==◌,
}
use activex_endpoint.Prelude.Dict
use activex_endpoint.Prelude.Dict.{Dict}
use activex_endpoint.Choreography.Graph.{
  ChoreographyNode, ChoreographyEdge, ChoreographyGraph, EdgeKind, function, fn_to_fn, bucket_to_fn,
}
use activex_endpoint.Choreography.Concurrency.{
  function_of, load, inbound, limit, check_nodes, check_concurrency,
}

-- The function of the node may run once, and once for each of the loads that come in together.
abbrev Passes : List ChoreographyEdge → Dict String ℕ → ChoreographyNode → Type 0
Passes edges limits n =
    (f : String)
    → function_of n ≡ some f
    → (1 ≤ limit limits f) × (inbound n.node_id edges ≤ limit limits f)

check_nodes_iff :
    (edges : List ChoreographyEdge) (limits : Dict String ℕ) (nodes : List ChoreographyNode)
    → (check_nodes edges limits nodes ≡ []) ↔ All (Passes edges limits) nodes
unfolding check_nodes
check_nodes_iff edges limits [] = ground arith
check_nodes_iff edges limits (n ∷ nodes) =
    let rest = check_nodes_iff edges limits nodes in
    elim (Option-cases (function_of n)) [
      | inl e ↦ (
        λ h. (λ f h'. absurd (ground arith), rest.0 (ground arith)),
        λ h. ground (arith, rest, h.1),
      )
      | inr (f, e) ↦ (
        λ h. (
          λ g e'. let same : f ≡ g = ground arith in rw (sym same) (ground arith),
          rest.0 (ground arith),
        ),
        λ h. let fits = h.0 f e in let none_left = rest.1 h.1 in ground arith,
      )
    ]

abbrev is_call : EdgeKind → Bool
is_call fn_to_fn = true
is_call k = false

abbrev is_fan : EdgeKind → Bool
is_fan bucket_to_fn = true
is_fan k = false

-- The edges of functions into the node, and those of buckets.
abbrev pub calls_into : String → List ChoreographyEdge → List ChoreographyEdge
calls_into node_id edges =
    filter (λ (e : ChoreographyEdge). e.target_node_id == node_id && is_call e.kind) edges

abbrev pub fans_into : String → List ChoreographyEdge → List ChoreographyEdge
fans_into node_id edges =
    filter (λ (e : ChoreographyEdge). e.target_node_id == node_id && is_fan e.kind) edges

-- How many items the buckets hand over at once, each at least one.
abbrev pub items_at_once : List ChoreographyEdge → ℕ
items_at_once [] = 0
items_at_once (e ∷ edges) = max 1 e.parallelism + items_at_once edges

-- The function is allowed to run `n` times at once, where a function without a limit may run once.
abbrev pub Allows : Dict String ℕ → String → ℕ → Type 0
Allows limits f n =
    ((Dict.get limits f ≡ none) × (n ≤ 1)) ⊎ ((k : ℕ) × (Dict.get limits f ≡ some k) × (n ≤ k))

-- A function node may run once, and once for each call and each item that comes in with it.
unfoldable pub Fits : List ChoreographyEdge → Dict String ℕ → ChoreographyNode → Type 0
Fits edges limits n =
    (f : String)
    → n.kind ≡ function
    → n.function_id ≡ some f
    → (f == "") ≡ false
    → Allows limits f 1
      × Allows limits f
          (length (calls_into n.node_id edges) + items_at_once (fans_into n.node_id edges))

inbound-sum :
    (node_id : String) (edges : List ChoreographyEdge)
    → inbound node_id edges
      ≡ length (calls_into node_id edges) + items_at_once (fans_into node_id edges)
unfolding inbound load
inbound-sum node_id [] = omega arith
inbound-sum node_id (e ∷ edges) = ground (arith, inbound-sum node_id edges)

limit-Allows :
    (limits : Dict String ℕ) (f : String) (n : ℕ) → (n ≤ limit limits f) ↔ Allows limits f n
limit-Allows limits f n = elim (Option-cases (Dict.get limits f)) [
  | inl e ↦ (λ le. inl (e, ground (arith, e, le)), λ a. ground (arith, e, a))
  | inr (k, e) ↦ (λ le. inr (k, e, ground (arith, e, le)), λ a. ground (arith, e, a))
]

function_of_iff :
    (n : ChoreographyNode) (f : String)
    → (function_of n ≡ some f)
      ↔ ((n.kind ≡ function) × (n.function_id ≡ some f) × ((f == "") ≡ false))
unfolding function_of
function_of_iff n f = ground (arith, string_eq.beq_iff f "")

Passes-Fits :
    (edges : List ChoreographyEdge) (limits : Dict String ℕ) (n : ChoreographyNode)
    → Passes edges limits n ↔ Fits edges limits n
unfolding Fits
Passes-Fits edges limits n =
    let need = length (calls_into n.node_id edges) + items_at_once (fans_into n.node_id edges) in
    (
      λ p f is_function has_id full.
          let (one, all) = p f ((function_of_iff n f).1 (is_function, has_id, full)) in
          (
            (limit-Allows limits f 1).0 one,
            (limit-Allows limits f need).0 (omega (arith, inbound-sum n.node_id edges, all)),
          ),
      λ fits f runs.
          let (is_function, has_id, full) = (function_of_iff n f).0 runs in
          let (one, all) = fits f is_function has_id full in
          let many : need ≤ limit limits f = (limit-Allows limits f need).1 all in
          ((limit-Allows limits f 1).1 one, omega (arith, inbound-sum n.node_id edges, many)),
    )

All-iff :
    {P Q : ChoreographyNode → Type 0} (nodes : List ChoreographyNode)
    → ((n : ChoreographyNode) → P n ↔ Q n)
    → All P nodes ↔ All Q nodes
All-iff [] h = (λ a. a, λ a. a)
All-iff (n ∷ nodes) h =
    let rest = All-iff nodes h in (λ a. ((h n).0 a.0, rest.0 a.1), λ a. ((h n).1 a.0, rest.1 a.1))

-- The check finds nothing exactly when every function node may run once, and may run as often at once
-- as edges of functions lead to it and buckets hand over items to it, each bucket at least one. A
-- function without a limit may run once.
pub check_concurrency_iff :
    (g : ChoreographyGraph) (limits : Dict String ℕ)
    → (check_concurrency g limits ≡ []) ↔ All (Fits g.edges limits) g.nodes
unfolding check_concurrency
check_concurrency_iff g limits =
    let found = check_nodes_iff g.edges limits g.nodes in
    let same =
      All-iff {P = Passes g.edges limits} {Q = Fits g.edges limits} g.nodes
        (Passes-Fits g.edges limits) in
    (λ h. same.0 (found.0 h), λ h. found.1 (same.1 h))
