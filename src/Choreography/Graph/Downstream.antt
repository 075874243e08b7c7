-- ===== src/Choreography/Graph/Downstream.antt =====
-- `downstream_of` of graph_ops.py, against paths of edges.
use activex_endpoint.Prelude.{
  ℕ, zero, suc, ◌+◌, ◌≤◌, String, ◌≡◌, refl, sym, ap, ◌∙◌, ◌↔◌, true, false, Option, some, List, [],
  ◌∷◌, ◌++◌, length, length-append, subst, arith, string_eq, ◌⊎◌, inl, inr, Bool-cases,
}
use activex_endpoint.Prelude.Dict
use activex_endpoint.Prelude.Dict.{Dict}
use activex_endpoint.Prelude.Sets.{contains, contains-append}
use activex_endpoint.Choreography.Graph.{
  ChoreographyGraph, ChoreographyEdge, or_empty, dependents_of, reach_from, pending, downstream_of,
}
use activex_endpoint.Choreography.Graph.Edges.{has_edge, dependents_of-has_edge}

-- A path of at least one entry of the map.
data Leads (d : Dict String (List String)) (a : String) : String → Type 0 where
  edge : {b : String} → contains (or_empty (Dict.get d a)) b ≡ true → Leads d a b
  beyond : {b c : String} → Leads d a b → contains (or_empty (Dict.get d b)) c ≡ true → Leads d a c

pending-more :
    (d : Dict String (List String)) (affected : List String) (k : String)
    → pending d (k ∷ affected) ≤ pending d affected
unfolding pending contains
pending-more [] affected k = omega arith
pending-more ((j, w) ∷ d) affected k = ground (arith, pending-more d affected k)

-- A visit pushes no more than it takes off the entries that are pending.
pending-visit :
    (d : Dict String (List String)) (affected : List String) (k : String)
    → contains affected k ≡ false
    → pending d (k ∷ affected) + length (or_empty (Dict.get d k)) ≤ pending d affected
unfolding pending contains Dict.get
pending-visit [] affected k h = ground arith
pending-visit ((j, w) ∷ d) affected k h = ground (
  arith,
  string_eq.beq_iff j k,
  string_eq.beq_iff k j,
  pending-visit d affected k h,
  pending-more d affected k,
)

-- The set `r` that the loop reaches from the frontier, where `P` holds of what may be reached.
record Reaches (d : Dict String (List String)) (P : String → Type 0)
    (frontier affected : List String) (r : Option (List String)) : Type 0 where
  result : List String
  returned : r ≡ some result
  old : (a : String) → contains affected a ≡ true → contains result a ≡ true
  fresh : (a : String) → contains frontier a ≡ true → contains result a ≡ true
  closed :
      (a b : String)
      → contains result a ≡ true
      → contains (or_empty (Dict.get d a)) b ≡ true
      → contains result b ≡ true
  justified : (a : String) → contains result a ≡ true → P a

module _ (d : Dict String (List String)) (P : String → Type 0)
    (next : (a b : String) → P a → contains (or_empty (Dict.get d a)) b ≡ true → P b) where
  reach_from-Reaches :
      (fuel : ℕ) (frontier affected : List String)
      → length frontier + pending d affected ≤ fuel
      → ((a : String) → contains frontier a ≡ true → P a)
      → ((a : String) → contains affected a ≡ true → P a)
      → ((a b : String)
          → contains affected a ≡ true
          → contains (or_empty (Dict.get d a)) b ≡ true
          → (contains affected b ≡ true) ⊎ (contains frontier b ≡ true))
      → Reaches d P frontier affected (reach_from fuel d frontier affected)
  unfolding reach_from contains
  reach_from-Reaches fuel [] affected enough front seen closed = record {
    result = affected;
    returned = refl;
    old = λ a m. m;
    fresh = λ a m. absurd (ground arith);
    closed = λ a b m e. ground (arith, closed a b m e);
    justified = seen;
  }
  reach_from-Reaches zero (x ∷ frontier) affected enough front seen closed =
      absurd (omega (arith, enough))
  reach_from-Reaches (suc fuel) (x ∷ frontier) affected enough front seen closed =
      elim (Bool-cases (contains affected x)) [
        | inl visited ↦
            let r =
              reach_from-Reaches fuel frontier affected (omega (arith, enough))
                (λ a m. front a (ground arith)) seen
                (λ a b m e. ground (arith, closed a b m e, visited, string_eq.beq_iff x b)) in
            rw visited record {
              result = r.result;
              returned = r.returned;
              old = r.old;
              fresh = λ a m. ground (arith, m, string_eq.beq_iff x a, visited, r.old a, r.fresh a);
              closed = r.closed;
              justified = r.justified;
            }
        | inr unseen ↦
            let children = or_empty (Dict.get d x) in
            let here = front x (ground (arith, string_eq.beq_iff x x)) in
            let r =
              reach_from-Reaches fuel (children ++ frontier) (x ∷ affected)
                (omega (
                  arith,
                  enough,
                  length-append children frontier,
                  pending-visit d affected x unseen,
                ))
                (λ a m. elim (Bool-cases (contains children a)) [
                  | inl child ↦ next x a here child
                  | inr other ↦ front a (ground (arith, m, contains-append children frontier a))
                ])
                (λ a m. elim (Bool-cases (string_eq.beq x a)) [
                  | inl same ↦ subst P ((string_eq.beq_iff x a).0 same) here
                  | inr apart ↦ seen a (ground arith)
                ])
                (λ a b m e. ground (
                  arith,
                  m,
                  e,
                  closed a b,
                  string_eq.beq_iff x a,
                  string_eq.beq_iff x b,
                  contains-append children frontier b,
                  ap (λ y. contains (or_empty (Dict.get d y)) b),
                )) in
            rw unseen record {
              result = r.result;
              returned = r.returned;
              old = λ a m. r.old a (ground arith);
              fresh = λ a m. ground (
                arith,
                m,
                string_eq.beq_iff x a,
                r.old a,
                r.fresh a,
                contains-append children frontier a,
              );
              closed = r.closed;
              justified = r.justified;
            }
      ]

-- The loop, against paths in the map that it walks.
downstream_of-Leads :
    (g : ChoreographyGraph) (node_id : String)
    → (affected : List String) × (downstream_of g node_id ≡ some affected)
      × ((a : String) → contains affected a ≡ true → Leads (dependents_of g) node_id a)
      × ((a : String) → Leads (dependents_of g) node_id a → contains affected a ≡ true)
unfolding downstream_of contains
downstream_of-Leads g node_id =
    let d = dependents_of g in
    let r =
      reach_from-Reaches d (Leads d node_id) (λ a b p e. beyond p e) _
        (or_empty (Dict.get d node_id)) [] (omega arith) (λ a m. edge m)
        (λ a m. absurd (ground arith)) (λ a b m e. absurd (ground arith)) in
    (r.result, r.returned, r.justified, reached r.result r.fresh r.closed)
  where
    reached :
        (result : List String)
        → ((a : String)
            → contains (or_empty (Dict.get (dependents_of g) node_id)) a ≡ true
            → contains result a ≡ true)
        → ((a b : String)
            → contains result a ≡ true
            → contains (or_empty (Dict.get (dependents_of g) a)) b ≡ true
            → contains result b ≡ true)
        → (a : String) → Leads (dependents_of g) node_id a
        → contains result a ≡ true
    reached result fresh closed a (edge m) = fresh a m
    reached result fresh closed a (beyond p e) = closed _ a (reached result fresh closed _ p) e

-- A path of at least one edge of the graph.
pub data EdgePath (edges : List ChoreographyEdge) (a : String) : String → Type 0 where
  one : {b : String} → has_edge edges a b ≡ true → EdgePath edges a b
  further : {b c : String} → EdgePath edges a b → has_edge edges b c ≡ true → EdgePath edges a c

Leads-EdgePath :
    (g : ChoreographyGraph) (a b : String) → Leads (dependents_of g) a b → EdgePath g.edges a b
Leads-EdgePath g a b (edge m) = one (sym (dependents_of-has_edge g a b) ∙ m)
Leads-EdgePath g a c (beyond {b} p m) =
    further (Leads-EdgePath g a b p) (sym (dependents_of-has_edge g b c) ∙ m)

EdgePath-Leads :
    (g : ChoreographyGraph) (a b : String) → EdgePath g.edges a b → Leads (dependents_of g) a b
EdgePath-Leads g a b (one m) = edge (dependents_of-has_edge g a b ∙ m)
EdgePath-Leads g a c (further {b} p m) =
    beyond (EdgePath-Leads g a b p) (dependents_of-has_edge g b c ∙ m)

-- The loop of `downstream_of` always ends, and returns exactly the nodes that a path of one or more
-- of the graph's edges, each from its source to its target, leads to from the given node.
pub downstream_of_iff :
    (g : ChoreographyGraph) (node_id : String)
    → (affected : List String) × (downstream_of g node_id ≡ some affected)
      × ((a : String) → (contains affected a ≡ true) ↔ EdgePath g.edges node_id a)
downstream_of_iff g node_id =
    let (affected, returned, sound, complete) = downstream_of-Leads g node_id in
    (
      affected,
      returned,
      λ a. (
        λ m. Leads-EdgePath g node_id a (sound a m),
        λ p. complete a (EdgePath-Leads g node_id a p),
      ),
    )
