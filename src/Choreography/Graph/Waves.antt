-- ===== src/Choreography/Graph/Waves.antt =====
-- The waves of `topological_waves` of graph_ops.py, and what is left on a cycle.
use activex_endpoint.Prelude.{
  ℕ, zero, suc, ◌≤◌, String, ◌≡◌, refl, sym, ◌∙◌, true, false, none, some, List, [], ◌∷◌, ◌++◌,
  length, is_empty, arith, string_eq, Bool-cases, inl, inr, ◌⊎◌,
}
use activex_endpoint.Prelude.Dict
use activex_endpoint.Prelude.Dict.{Dict, Distinct, keys}
use activex_endpoint.Prelude.Sets.{contains, subset, contains-append, subset-contains, subset-of}
use activex_endpoint.Prelude.Order.{sorted_set, string_ord, contains-sorted_set}
use activex_endpoint.Choreography.Graph.Rounds.{
  Deps, ready_nodes_sound, get-remove_all, remove_all-Distinct, length-remove_ready, unmet,
  none_ready, keys-get, get-none,
}
use activex_endpoint.Choreography.Graph.{
  ChoreographyNode, ChoreographyEdge, ChoreographyGraph, add_to, no_deps, add_dependencies,
  dependencies_of, ready_nodes, remove_all, WaveResult, waves, cycle, out_of_fuel, wave_then,
  waves_from, topological_waves,
}

unfoldable pub flatten : List (List String) → List String
flatten [] = []
flatten (w ∷ ws) = w ++ flatten ws

-- What a node in a wave depends on is done before the wave.
unfoldable pub InOrder : Deps → List String → List (List String) → Type 0
InOrder d done [] = Unit
InOrder d done (w ∷ ws) =
    ((k : String) (deps : List String)
      → contains w k ≡ true
      → Dict.get d k ≡ some deps
      → subset deps done ≡ true)
    × InOrder d (w ++ done) ws

-- The waves that start where `done` is done: in order, and with every node that is left.
pub record Schedules (d remaining : Deps) (done : List String) (ws : List (List String))
    : Type 0 where
  pub in_order : InOrder d done ws
  pub complete :
      (k : String) (deps : List String)
      → Dict.get remaining k ≡ some deps
      → contains (flatten ws) k ≡ true
  pub known :
      (k : String)
      → contains (flatten ws) k ≡ true
      → (deps : List String) × (Dict.get remaining k ≡ some deps)

subset_mono :
    (xs ys zs : List String)
    → ((a : String) → contains ys a ≡ true → contains zs a ≡ true)
    → subset xs ys ≡ true
    → subset xs zs ≡ true
subset_mono xs ys zs f h = subset-of xs zs (λ a m. f a (subset-contains xs ys a h m))

InOrder-mono :
    (d : Deps) (ws : List (List String)) (done more : List String)
    → ((a : String) → contains done a ≡ true → contains more a ≡ true)
    → InOrder d done ws
    → InOrder d more ws
unfolding InOrder
InOrder-mono d [] done more f h = tt
InOrder-mono d (w ∷ ws) done more f (here, later) = (
  λ k deps m got. subset_mono deps done more f (here k deps m got),
  InOrder-mono d ws (w ++ done) (w ++ more)
      (λ a m. ground (arith, contains-append w done a, contains-append w more a, f a, m)) later,
)

-- One more wave of ready nodes, before the waves of the rest.
ready-Schedules :
    (d remaining : Deps) (done : List String) (ws : List (List String))
    → Distinct remaining
    → ((k : String) (deps : List String)
        → Dict.get remaining k ≡ some deps
        → Dict.get d k ≡ some deps)
    → Schedules d
        (remove_all remaining (ready_nodes remaining done))
        (ready_nodes remaining done ++ done)
        ws
    → Schedules d remaining done (sorted_set (ready_nodes remaining done) ∷ ws)
unfolding InOrder flatten
ready-Schedules d remaining done ws distinct same s =
    let ready = ready_nodes remaining done in
    record {
      in_order = (
        λ k deps m got.
            let (own, had, ok_deps) =
              ready_nodes_sound remaining done k distinct (sym (contains-sorted_set ready k) ∙ m) in
            let got' = same k own had in
            let equal : own ≡ deps = ground arith in rw (sym equal) ok_deps,
        InOrder-mono d ws (ready ++ done) (sorted_set ready ++ done)
            (λ a m. ground (
              arith,
              m,
              contains-append ready done a,
              contains-append (sorted_set ready) done a,
              contains-sorted_set ready a,
            ))
            s.in_order,
      );
      complete = λ k deps got. ground (
        arith,
        got,
        contains-append (sorted_set ready) (flatten ws) k,
        contains-sorted_set ready k,
        get-remove_all ready remaining k,
        s.complete k deps,
      );
      known = λ k m. elim (Bool-cases (contains ready k)) [
        | inl here ↦
            let (own, had, _) = ready_nodes_sound remaining done k distinct here in (own, had)
        | inr later ↦
            let (own, had) = s.known k (
              ground (
                arith,
                m,
                contains-append (sorted_set ready) (flatten ws) k,
                contains-sorted_set ready k,
              )) in
            (own, ground (arith, get-remove_all ready remaining k))
      ];
    }

-- Nodes that can never start: each waits for one of them, or for a node that does not exist.
pub record Blocked (d : Deps) (left : List String) : Type 0 where
  pub some_left : is_empty left ≡ false
  pub waits :
      (k : String) (deps : List String)
      → contains left k ≡ true
      → Dict.get d k ≡ some deps
      → (a : String) × (contains deps a ≡ true) × ((contains left a ≡ true) ⊎ (Dict.get d a ≡ none))

-- Every node is left or done.
Split : Deps → Deps → List String → Type 0
Split d remaining done =
    (k : String) → Dict.get remaining k ≡ none → (contains done k ≡ true) ⊎ (Dict.get d k ≡ none)

contains-head : (k : String) (ks : List String) → contains (k ∷ ks) k ≡ true
unfolding contains
contains-head k ks = ground (arith, string_eq.beq_iff k k)

held-not_empty : (k : String) (xs : List String) → contains xs k ≡ true → is_empty xs ≡ false
unfolding contains
held-not_empty k [] h = absurd (ground arith)
held-not_empty k (x ∷ xs) h = refl

stuck-Blocked :
    (d remaining : Deps) (done : List String)
    → is_empty (keys remaining) ≡ false
    → is_empty (ready_nodes remaining done) ≡ true
    → ((k : String) (deps : List String)
        → Dict.get remaining k ≡ some deps
        → Dict.get d k ≡ some deps)
    → Split d remaining done
    → Blocked d (sorted_set (keys remaining))
unfolding Split
stuck-Blocked d remaining done more stuck same split = record {
  some_left = left_over (keys remaining) more;
  waits = λ k deps m got.
      let (own, had) = keys-get remaining k (sym (contains-sorted_set (keys remaining) k) ∙ m) in
      let got' = same k own had in
      let equal : own ≡ deps = ground arith in
      let (a, dep, missing) = unmet own done (none_ready remaining done k own stuck had) in
      (
        a,
        rw (sym equal) dep,
        elim (Bool-cases (contains (keys remaining) a)) [
          | inl there ↦ inl (contains-sorted_set (keys remaining) a ∙ there)
          | inr gone ↦ ground (arith, split a (get-none remaining a gone))
        ],
      );
}
  where
    left_over : (ks : List String) → is_empty ks ≡ false → is_empty (sorted_set ks) ≡ false
    left_over [] h = absurd (ground arith)
    left_over (k ∷ ks) h = held-not_empty k _ (contains-sorted_set (k ∷ ks) k ∙ contains-head k ks)

-- What the loop returns: never that it ran out of fuel, waves only if they schedule the rest, and a
-- cycle only if its nodes are blocked.
unfoldable pub Sound : Deps → Deps → List String → WaveResult → Type 0
Sound d remaining done (waves ws) = Schedules d remaining done ws
Sound d remaining done (cycle left) = Blocked d left
Sound d remaining done out_of_fuel = ⊥

waves_from-Sound :
    (fuel : ℕ) (d remaining : Deps) (done : List String)
    → length remaining ≤ fuel
    → Distinct remaining
    → ((k : String) (deps : List String)
        → Dict.get remaining k ≡ some deps
        → Dict.get d k ≡ some deps)
    → Split d remaining done
    → Sound d remaining done (waves_from fuel remaining done)
unfolding waves_from wave_then Sound Split InOrder flatten contains Dict.get
waves_from-Sound fuel d [] done enough distinct same split = record {
  in_order = tt;
  complete = λ k deps got. absurd (ground arith);
  known = λ k m. absurd (ground arith);
}
waves_from-Sound zero d (x ∷ remaining) done enough distinct same split =
    absurd (omega (arith, enough))
waves_from-Sound (suc fuel) d (x ∷ remaining) done enough distinct same split =
    let all = x ∷ remaining in
    let ready = ready_nodes all done in
    elim (Bool-cases (is_empty ready)) [
      | inl stuck ↦ rw stuck (stuck-Blocked d all done refl stuck same split)
      | inr moves ↦
          let shorter = length-remove_ready all done distinct moves in
          let ih =
            waves_from-Sound fuel d (remove_all all ready) (ready ++ done)
              (omega (arith, shorter, enough)) (remove_all-Distinct ready all distinct)
              (λ k deps got. same k deps (ground (arith, got, get-remove_all ready all k)))
              (λ k gone.
                ground (
                  arith,
                  gone,
                  get-remove_all ready all k,
                  split k,
                  contains-append ready done k,
                )) in
          rw moves (by_rest (waves_from fuel (remove_all all ready) (ready ++ done)) ih)
    ]
  where
    by_rest :
        (r : WaveResult)
        → Sound d
            (remove_all (x ∷ remaining) (ready_nodes (x ∷ remaining) done))
            (ready_nodes (x ∷ remaining) done ++ done)
            r
        → Sound d (x ∷ remaining) done (wave_then (sorted_set (ready_nodes (x ∷ remaining) done)) r)
    by_rest (waves ws) s = ready-Schedules d (x ∷ remaining) done ws distinct same s
    by_rest (cycle left) s = s
    by_rest out_of_fuel s = s

no_deps-Distinct :
    (nodes : List ChoreographyNode) (d : Deps) → Distinct d → Distinct (no_deps d nodes)
unfolding no_deps
no_deps-Distinct [] d p = p
no_deps-Distinct (n ∷ nodes) d p = no_deps-Distinct nodes _ (Dict.put-Distinct d n.node_id [] p)

add_dependencies-Distinct :
    (edges : List ChoreographyEdge) (d : Deps) → Distinct d → Distinct (add_dependencies d edges)
unfolding add_dependencies add_to
add_dependencies-Distinct [] d p = p
add_dependencies-Distinct (e ∷ edges) d p =
    add_dependencies-Distinct edges _ (Dict.put-Distinct d e.target_node_id _ p)

-- The waves of a graph: the loop never runs out of rounds. If it returns waves then they hold exactly
-- the nodes of the dependency map, each after all that it depends on. If it reports a cycle then it
-- names nodes that can never start: each depends on one of them or on a node that does not exist.
pub topological_waves-Sound :
    (g : ChoreographyGraph) → Sound (dependencies_of g) (dependencies_of g) [] (topological_waves g)
unfolding topological_waves dependencies_of Split
topological_waves-Sound g =
    let deps = dependencies_of g in
    waves_from-Sound (length deps) deps deps [] (omega arith)
      (add_dependencies-Distinct g.edges _ (no_deps-Distinct g.nodes [] tt)) (λ k deps got. got)
      (λ k gone. inr gone)
