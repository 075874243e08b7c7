-- ===== src/Consensus/Loop/Flush.antt =====
-- Which node drains and pushes in a tick of consensus_loop.py.
use activex_endpoint.Prelude.{
  ℕ, All, subst, ◌≡◌, ◌≢◌, refl, sym, ◌∙◌, ◌⊎◌, inl, inr, ◌↔◌, String, Bool, true, false, ◌&&◌,
  List, [], ◌∷◌, map, arith, Bool-cases, if◌then◌else◌, is_empty, string_eq,
}
use activex_endpoint.Prelude.Sets.{contains}
use activex_endpoint.Consensus.Elector.{ClusterMember, LeaderView, all_ids, recompute, is_leader}
use activex_endpoint.Consensus.Elector.Leadership.{
  IsGreatest, IsGreatest-unique, is_leader-recompute_iff,
}
use activex_endpoint.Consensus.StateMachine.{StateMutation, ClusterState, apply_local}
use activex_endpoint.Consensus.DirtyTracker.{init, pending_count, should_flush, drain}
use activex_endpoint.Consensus.DirtyTracker.Replay.{Mark, mark_all, Replays, drain-Replays}
use activex_endpoint.Consensus.Loop.{
  Peer, Node, Push, Ticked, members_of, pushes_of, flush, run_consensus_tick,
}

-- Whether the node leads after the recomputation of a tick.
leads : Node → List Peer → ℕ → Bool → Bool
leads n peers now local_mode =
    is_leader (recompute n.elector (members_of peers local_mode) now).0 n.elector.self_id

abbrev pub tick : Node → List Peer → ℕ → ℕ → Bool → Ticked
tick n peers idle now local_mode = run_consensus_tick n n.elector.self_id peers idle now local_mode

-- The ids that a node sees in a tick, its own with them.
abbrev pub ids_seen : Node → List Peer → Bool → List String
ids_seen n peers local_mode = all_ids n.elector (members_of peers local_mode)

-- The tick pushes nothing, and keeps the tracker and the state.
abbrev pub Quiet : Node → List Peer → ℕ → ℕ → Bool → Type 0
Quiet n peers idle now local_mode =
    ((tick n peers idle now local_mode).node.tracker ≡ n.tracker)
    × ((tick n peers idle now local_mode).node.state ≡ n.state)
    × ((tick n peers idle now local_mode).pushes ≡ [])

tick-follower :
    (n : Node) (peers : List Peer) (idle now : ℕ) (local_mode : Bool)
    → leads n peers now local_mode ≡ false
    → Quiet n peers idle now local_mode
unfolding run_consensus_tick flush leads is_leader recompute
tick-follower n peers idle now local_mode h = ground arith

map-uri :
    (members : List ClusterMember) (f : ClusterMember → Push)
    → ((m : ClusterMember) → (f m).rpc_uri ≡ m.rpc_uri)
    → map (λ (p : Push). p.rpc_uri) (map f members) ≡ map (λ m. m.rpc_uri) members
map-uri [] f h = refl
map-uri (m ∷ members) f h = rw (h m, map-uri members f h)

-- A mutation with no change of a function, a data record or a bucket.
abbrev pub no_changes : StateMutation → Bool
no_changes m = is_empty m.function_changes && (is_empty m.data_changes && is_empty m.bucket_changes)

leads-IsGreatest :
    (n : Node) (peers : List Peer) (now : ℕ) (local_mode : Bool)
    → (leads n peers now local_mode ≡ true)
      ↔ IsGreatest (ids_seen n peers local_mode) n.elector.self_id
unfolding leads
leads-IsGreatest n peers now local_mode =
    is_leader-recompute_iff n.elector (members_of peers local_mode) now n.elector.self_id

tick-leader :
    (n : Node) (peers : List Peer) (idle now : ℕ) (local_mode : Bool)
    → leads n peers now local_mode ≡ true
    → should_flush n.tracker now idle ≡ true
    → let after = tick n peers idle now local_mode in
      let mutation = (drain n.tracker).1 in
      (after.node.tracker ≡ (drain n.tracker).0)
      × (after.node.state ≡ apply_local n.state mutation)
      × (map (λ (p : Push). p.rpc_uri) after.pushes ≡ (
          if no_changes mutation
          then []
          else map (λ (m : ClusterMember). m.rpc_uri) (members_of peers local_mode)))
unfolding run_consensus_tick flush leads is_leader recompute pushes_of
tick-leader n peers idle now local_mode h due = elim (Bool-cases (no_changes (drain n.tracker).1)) [
  | inl none_there ↦ rw (h, due, none_there) (refl, refl, refl)
  | inr changes ↦ rw (h, due, changes) (refl, refl, map-uri _ _ (λ m. refl))
]

-- The mutation of every push.
All-pushes :
    (P : StateMutation → Type 0) (members : List ClusterMember) (view : LeaderView)
    (ids : List String) (mutation : StateMutation)
    → P mutation
    → All (λ (p : Push). P p.mutation) (pushes_of members view ids mutation)
unfolding pushes_of
All-pushes P members view ids mutation h = elim (Bool-cases (no_changes mutation)) [
  | inl none_there ↦ simp none_there tt
  | inr changes ↦ simp changes (each members)
]
  where
    each :
        (ms : List ClusterMember)
        → All
            (λ (p : Push). P p.mutation)
            (map
              (λ (m : ClusterMember). record {
                rpc_uri = m.rpc_uri;
                view = view;
                member_ids = ids;
                mutation = mutation;
              })
              ms)
    each [] = tt
    each (m ∷ ms) = (h, each ms)

tick-pushes :
    (n : Node) (peers : List Peer) (idle now : ℕ) (local_mode : Bool) (P : StateMutation → Type 0)
    → leads n peers now local_mode ≡ true
    → should_flush n.tracker now idle ≡ true
    → P (drain n.tracker).1
    → All (λ (p : Push). P p.mutation) (tick n peers idle now local_mode).pushes
unfolding run_consensus_tick flush leads is_leader recompute
tick-pushes n peers idle now local_mode P h due held =
    rw (h, due) (All-pushes P (members_of peers local_mode) _ _ (drain n.tracker).1 held)

-- If a flush is due on a tracker that began empty and took any marks, a node whose id is the greatest
-- that it sees is left with nothing pending and with a state in which every key holds what was marked
-- last. It pushes to every member once, unless only leader views were pending, and what it pushes
-- makes the same of whatever state it is applied to.
pub run_consensus_tick-leader :
    (n : Node) (peers : List Peer) (idle now : ℕ) (local_mode : Bool) (limit : ℕ)
    (marks : List Mark)
    → n.tracker ≡ mark_all (init limit) marks
    → IsGreatest (ids_seen n peers local_mode) n.elector.self_id
    → should_flush n.tracker now idle ≡ true
    → let after = tick n peers idle now local_mode in
      (pending_count after.node.tracker ≡ 0)
      × Replays n.state marks after.node.state
      × (map (λ (p : Push). p.rpc_uri) after.pushes ≡ (
          if no_changes (drain n.tracker).1
          then []
          else map (λ (m : ClusterMember). m.rpc_uri) (members_of peers local_mode)))
      × All
          (λ (p : Push). (s : ClusterState) → Replays s marks (apply_local s p.mutation))
          after.pushes
unfolding pending_count drain
run_consensus_tick-leader n peers idle now local_mode limit marks began greatest due =
    let led = (leads-IsGreatest n peers now local_mode).1 greatest in
    let (emptied, folded, told) = tick-leader n peers idle now local_mode led due in
    let replayed : (s : ClusterState) → Replays s marks (apply_local s (drain n.tracker).1) = λ s.
      subst (λ t. Replays s marks (apply_local s (drain t).1)) (sym began)
        (drain-Replays s limit marks) in
    (
      rw emptied refl,
      rw folded (replayed n.state),
      told,
      tick-pushes n peers idle now local_mode
          (λ u. (s : ClusterState) → Replays s marks (apply_local s u)) led due replayed,
    )

-- Of two nodes with different ids that see the same ids, each its own with them, at least one
-- pushes nothing in its tick and keeps its tracker and its state.
pub run_consensus_tick-one_pushes :
    (n m : Node) (ps qs : List Peer) (idle now later : ℕ) (local_mode : Bool)
    → n.elector.self_id ≢ m.elector.self_id
    → ((a : String) → contains (ids_seen n ps local_mode) a ≡ contains (ids_seen m qs local_mode) a)
    → Quiet n ps idle now local_mode ⊎ Quiet m qs idle later local_mode
run_consensus_tick-one_pushes n m ps qs idle now later local_mode apart same =
    elim (Bool-cases (leads n ps now local_mode)) [
      | inr follows ↦ inl (tick-follower n ps idle now local_mode follows)
      | inl first ↦ elim (Bool-cases (leads m qs later local_mode)) [
        | inr follows ↦ inr (tick-follower m qs idle later local_mode follows)
        | inl second ↦
            let g = (leads-IsGreatest n ps now local_mode).0 first in
            let h = (leads-IsGreatest m qs later local_mode).0 second in
            absurd (
              apart (
                IsGreatest-unique (ids_seen n ps local_mode) n.elector.self_id m.elector.self_id g
                  (same m.elector.self_id ∙ h.0, λ a c. h.1 a (sym (same a) ∙ c))))
      ]
    ]
