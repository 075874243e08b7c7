-- ===== src/Choreography/Graph/Edges.antt =====
-- `dependents_of` of graph_ops.py, against the edges of the graph.
use activex_endpoint.Prelude.{
  String, ◌≡◌, refl, ap, ◌∙◌, Bool, ◌&&◌, ◌||◌, ◌==◌, if◌then◌else◌, false, List, [], ◌∷◌, arith,
  string_eq, inl, inr, Bool-cases,
}
use activex_endpoint.Prelude.Dict
use activex_endpoint.Prelude.Dict.{Dict}
use activex_endpoint.Prelude.Sets.{contains}
use activex_endpoint.Choreography.Graph.{
  ChoreographyGraph, ChoreographyNode, ChoreographyEdge, or_empty, add_to, add_dependents, no_deps,
  dependents_of,
}

-- Whether one of the edges goes from `a` to `b`.
unfoldable pub has_edge : List ChoreographyEdge → String → String → Bool
has_edge [] a b = false
has_edge (e ∷ edges) a b = (e.source_node_id == a && e.target_node_id == b) || has_edge edges a b

put_in : List String → String → List String
unfolding contains
put_in old t = if contains old t then old else t ∷ old

contains-put_in :
    (old : List String) (t b : String) → contains (put_in old t) b ≡ ((t == b) || contains old b)
unfolding put_in contains
contains-put_in old t b = elim (Bool-cases (contains old t)) [
  | inr new ↦ rw new (ground arith)
  | inl known ↦ elim (Bool-cases (t == b)) [
    | inl same ↦ rw (known, same, ← (string_eq.beq_iff t b).0 same) known
    | inr other ↦ rw (known, other) refl
  ]
]

-- What the map says of a node is what its edges say.
dependents-add_to :
    (d : Dict String (List String)) (s t a b : String)
    → contains (or_empty (Dict.get (add_to d s t) a)) b
      ≡ ((s == a && t == b) || contains (or_empty (Dict.get d a)) b)
unfolding add_to put_in
dependents-add_to d s t a b = elim (Bool-cases (s == a)) [
  | inl same ↦
      rw (Dict.get-put d s a (put_in (or_empty (Dict.get d s)) t), same)
        (rw (← (string_eq.beq_iff s a).0 same) (contains-put_in (or_empty (Dict.get d s)) t b))
  | inr other ↦ rw (Dict.get-put d s a (put_in (or_empty (Dict.get d s)) t), other) refl
]

dependents-edges :
    (d : Dict String (List String)) (edges : List ChoreographyEdge) (a b : String)
    → contains (or_empty (Dict.get (add_dependents d edges) a)) b
      ≡ (contains (or_empty (Dict.get d a)) b || has_edge edges a b)
unfolding add_dependents has_edge
dependents-edges d [] a b = ground arith
dependents-edges d (e ∷ edges) a b = ground (
  arith,
  dependents-edges (add_to d e.source_node_id e.target_node_id) edges a b,
  dependents-add_to d e.source_node_id e.target_node_id a b,
)

no_deps-empty :
    (d : Dict String (List String)) (nodes : List ChoreographyNode) (a : String)
    → or_empty (Dict.get d a) ≡ []
    → or_empty (Dict.get (no_deps d nodes) a) ≡ []
unfolding no_deps
no_deps-empty d [] a h = h
no_deps-empty d (n ∷ nodes) a h =
    no_deps-empty (Dict.put d n.node_id []) nodes a
      (ground (arith, h, Dict.get-put d n.node_id a []))

pub dependents_of-has_edge :
    (g : ChoreographyGraph) (a b : String)
    → contains (or_empty (Dict.get (dependents_of g) a)) b ≡ has_edge g.edges a b
unfolding dependents_of contains Dict.get
dependents_of-has_edge g a b =
    dependents-edges (no_deps [] g.nodes) g.edges a b
    ∙ ap (λ xs. contains xs b || has_edge g.edges a b) (no_deps-empty [] g.nodes a refl)
