-- ===== src/Choreography/Run/Cascade.antt =====
-- What a failure means for later waves in `_execute_run` of run_choreography.py.
use activex_endpoint.Prelude.{
  ℕ, suc, String, ◌≡◌, refl, subst, Bool, true, false, not, some, List, [], ◌∷◌, filter, is_empty,
  arith, string_eq, All, Bool-cases, Option-cases, inl, inr,
}
use activex_endpoint.Prelude.Dict.{Dict}
use activex_endpoint.Prelude.Sets.{contains, contains-append, contains-filter}
use activex_endpoint.Choreography.Graph.{
  ChoreographyNode, ChoreographyGraph, or_empty, topological_waves, downstream_of,
}
use activex_endpoint.Choreography.Run.{
  RunStatus, Progress, ChoreographyRun, run_wave, mark_ran, settle, run_waves, execute_run,
  find_node, waves_of, has_cycle, run_node,
}

-- Everything downstream of the nodes that failed is in `stopped`.
unfoldable pub FailuresIn : ChoreographyGraph → List String → List (String × Bool) → Type 0
FailuresIn g stopped [] = Unit
FailuresIn g stopped ((k, ok_) ∷ results) =
    (ok_ ≡ false
      → (c : String) → contains (or_empty (downstream_of g k)) c ≡ true
      → contains stopped c ≡ true)
    × FailuresIn g stopped results

-- No node of the wave is downstream of a failure among the results.
unfoldable pub Clear : ChoreographyGraph → List (String × Bool) → List (String × Bool) → Type 0
Clear g w results =
    All
      (λ (r : String × Bool).
        r.1 ≡ false
        → All (λ (n : String × Bool). contains (or_empty (downstream_of g r.0)) n.0 ≡ false) w)
      results

-- No node of a wave is downstream of a failure in a wave before it. The last wave stands first.
unfoldable pub Cascades : ChoreographyGraph → List (List (String × Bool)) → Type 0
Cascades g [] = Unit
Cascades g (w ∷ before) = All (Clear g w) before × Cascades g before

FailuresIn-mono :
    (g : ChoreographyGraph) (stopped more : List String)
    → ((a : String) → contains stopped a ≡ true → contains more a ≡ true)
    → (results : List (String × Bool)) → FailuresIn g stopped results
    → FailuresIn g more results
unfolding FailuresIn
FailuresIn-mono g stopped more f [] h = tt
FailuresIn-mono g stopped more f ((k, o) ∷ results) (h, later) =
    (λ e c m. f c (h e c m), FailuresIn-mono g stopped more f results later)

settle-grows :
    (g : ChoreographyGraph) (results : List (String × Bool)) (p : Progress) (a : String)
    → contains p.cancelled_or_failed a ≡ true
    → contains (settle g p results).cancelled_or_failed a ≡ true
unfolding settle
settle-grows g [] p a h = h
settle-grows g ((k, true) ∷ results) p a h = settle-grows g results p a h
settle-grows g ((k, false) ∷ results) p a h =
    let newly =
      filter (λ c. not (contains p.cancelled_or_failed c)) (or_empty (downstream_of g k)) in
    settle-grows g results _ a (ground (arith, h, contains-append newly p.cancelled_or_failed a))

settle-ran :
    (g : ChoreographyGraph) (results : List (String × Bool)) (p : Progress)
    → (settle g p results).ran ≡ p.ran
unfolding settle
settle-ran g [] p = refl
settle-ran g ((k, true) ∷ results) p = settle-ran g results p
settle-ran g ((k, false) ∷ results) p = settle-ran g results _

settle-FailuresIn :
    (g : ChoreographyGraph) (results : List (String × Bool)) (p : Progress)
    → FailuresIn g (settle g p results).cancelled_or_failed results
unfolding settle FailuresIn
settle-FailuresIn g [] p = tt
settle-FailuresIn g ((k, true) ∷ results) p =
    (λ e. absurd (ground arith), settle-FailuresIn g results p)
settle-FailuresIn g ((k, false) ∷ results) p =
    let reached = or_empty (downstream_of g k) in
    let fresh = λ (c : String). not (contains p.cancelled_or_failed c) in
    (
      λ e c m. settle-grows g results _ c (
          ground (
            arith,
            m,
            contains-append (filter fresh reached) p.cancelled_or_failed c,
            contains-filter fresh reached c,
          )),
      settle-FailuresIn g results _,
    )

run_wave-All :
    (P : String → Type 0) (nodes : List ChoreographyNode) (succeeds : String → Bool)
    (ks : List String) {results : List (String × Bool)}
    → All P ks
    → run_wave nodes succeeds ks ≡ some results
    → All (λ (n : String × Bool). P n.0) results
unfolding run_wave
run_wave-All P nodes succeeds [] {results} all h =
    let same : [] ≡ results = ground arith in subst (All (λ (n : String × Bool). P n.0)) same tt
run_wave-All P nodes succeeds (k ∷ ks) {results} (here, later) h =
    elim (Option-cases (find_node nodes k)) [
      | inl missing ↦ absurd (ground arith)
      | inr (n, there) ↦ elim (Option-cases (run_wave nodes succeeds ks)) [
        | inl crash ↦ absurd (ground arith)
        | inr (rest, went) ↦
            let same : (k, run_node succeeds n) ∷ rest ≡ results = ground arith in
            subst (All (λ (n : String × Bool). P n.0)) same
              (here, run_wave-All P nodes succeeds ks later went)
      ]
    ]

unstarted :
    (stopped : List String) (w : List String)
    → All (λ k. contains stopped k ≡ false) (filter (λ k. not (contains stopped k)) w)
unstarted stopped [] = tt
unstarted stopped (k ∷ w) = elim (Bool-cases (contains stopped k)) [
  | inl there ↦ rw there (unstarted stopped w)
  | inr free ↦ rw free (free, unstarted stopped w)
]

none_downstream :
    (g : ChoreographyGraph) (stopped : List String) (k : String) (w : List (String × Bool))
    → ((c : String) → contains (or_empty (downstream_of g k)) c ≡ true → contains stopped c ≡ true)
    → All (λ (n : String × Bool). contains stopped n.0 ≡ false) w
    → All (λ (n : String × Bool). contains (or_empty (downstream_of g k)) n.0 ≡ false) w
none_downstream g stopped k [] f h = tt
none_downstream g stopped k (n ∷ w) f (free, h) =
    (ground (arith, f n.0, free), none_downstream g stopped k w f h)

FailuresIn-Clear :
    (g : ChoreographyGraph) (stopped : List String) (w results : List (String × Bool))
    → All (λ (n : String × Bool). contains stopped n.0 ≡ false) w
    → FailuresIn g stopped results
    → Clear g w results
unfolding FailuresIn Clear
FailuresIn-Clear g stopped w [] free h = tt
FailuresIn-Clear g stopped w ((k, o) ∷ results) free (h, later) =
    (λ e. none_downstream g stopped k w (h e) free, FailuresIn-Clear g stopped w results free later)

All-map :
    {A : Type 0} {P Q : A → Type 0} → ((a : A) → P a → Q a) → (xs : List A) → All P xs → All Q xs
All-map f [] h = tt
All-map f (x ∷ xs) (h, later) = (f x h, All-map f xs later)

-- What the wave loop keeps.
record Keeps (g : ChoreographyGraph) (p : Progress) : Type 0 where
  stops : All (FailuresIn g p.cancelled_or_failed) p.ran
  cascades : Cascades g p.ran

wave-Keeps :
    (g : ChoreographyGraph) (p : Progress) (states : Dict String RunStatus)
    (results : List (String × Bool))
    → All (λ (n : String × Bool). contains p.cancelled_or_failed n.0 ≡ false) results
    → Keeps g p
    → Keeps g (settle g (record p { node_states = states; ran = results ∷ p.ran }) results)
unfolding Cascades
wave-Keeps g p states results free keeps =
    let p' : Progress = record p { node_states = states; ran = results ∷ p.ran } in
    record {
      stops = rw (settle-ran g results p') (
        settle-FailuresIn g results p',
        All-map (FailuresIn-mono g p.cancelled_or_failed _ (λ a m. settle-grows g results p' a m))
            p.ran keeps.stops,
      );
      cascades = rw (settle-ran g results p') (
        All-map (λ r f. FailuresIn-Clear g p.cancelled_or_failed results r free f) p.ran
            keeps.stops,
        keeps.cascades,
      );
    }

run_waves-Keeps :
    (g : ChoreographyGraph) (succeeds : String → Bool) (stopped : ℕ → Bool)
    (ws : List (List String)) (i : ℕ) (p : Progress) {final : Progress}
    → Keeps g p
    → run_waves g succeeds stopped i ws p ≡ some final
    → Keeps g final
unfolding run_waves
run_waves-Keeps g succeeds stopped [] i p keeps h = subst (Keeps g) (ground arith) keeps
run_waves-Keeps g succeeds stopped (w ∷ ws) i p {final} keeps h = elim (Bool-cases (stopped i)) [
  | inl e ↦ let same : p ≡ final = ground arith in subst (Keeps g) same keeps
  | inr e ↦
      let runnable = filter (λ k. not (contains p.cancelled_or_failed k)) w in
      elim (Bool-cases (is_empty runnable)) [
        | inl idle ↦ run_waves-Keeps g succeeds stopped ws (suc i) p keeps (ground arith)
        | inr busy ↦ elim (Option-cases (run_wave g.nodes succeeds runnable)) [
          | inl crash ↦ absurd (ground arith)
          | inr (results, went) ↦
              let free =
                run_wave-All (λ k. contains p.cancelled_or_failed k ≡ false) g.nodes succeeds
                  runnable (unstarted p.cancelled_or_failed w) went in
              run_waves-Keeps g succeeds stopped ws (suc i) _
                (wave-Keeps g p (mark_ran p.node_states results) results free keeps) (ground arith)
        ]
      ]
]

-- In a run that does not crash, no node is run in a later wave than a failed node that it is
-- downstream of, whatever succeeds and whenever the run is stopped.
pub execute_run-Cascades :
    (g : ChoreographyGraph) (succeeds : String → Bool) (stopped : ℕ → Bool) (stopped_at_end : Bool)
    (run : ChoreographyRun) {run' : ChoreographyRun} {p : Progress}
    → execute_run g succeeds stopped stopped_at_end run ≡ some (run', p)
    → Cascades g p.ran
unfolding execute_run Cascades
execute_run-Cascades g succeeds stopped stopped_at_end run {run'} {p} h =
    let p0 : Progress = record {
      node_states = run.node_states;
      cancelled_or_failed = [];
      any_failed = has_cycle (topological_waves g);
      ran = [];
    } in
    elim (Option-cases (run_waves g succeeds stopped 0 (waves_of (topological_waves g)) p0)) [
      | inl crash ↦ absurd (ground arith)
      | inr (final, went) ↦
          let kept =
            run_waves-Keeps g succeeds stopped _ 0 p0 record { stops = tt; cascades = tt } went in
          let same : final ≡ p = ground arith in subst (λ q. Cascades g q.ran) same kept.cascades
    ]
