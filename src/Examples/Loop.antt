-- ===== src/Examples/Loop.antt =====
-- The theorems about the consensus loop, at concrete inputs.
use activex_endpoint.Prelude.{
  All, ◌+◌, ◌≡◌, ◌≢◌, ◌⊎◌, refl, sym, ◌∙◌, ◌==◌, Bool-cases, inl, inr, String, true, false, ◌||◌,
  none, List, [], ◌∷◌, map, arith, if◌then◌else◌, string_eq,
}
use activex_endpoint.Prelude.Dict
use activex_endpoint.Prelude.Sets.{contains}
use activex_endpoint.Prelude.Order.{str_le, string_ord}
use activex_endpoint.Consensus.Elector.{BullyLeaderElector, ClusterMember}
use activex_endpoint.Consensus.Elector
use activex_endpoint.Consensus.Elector.Leadership.{IsGreatest}
use activex_endpoint.Consensus.StateMachine.{ClusterState, initial, apply_local}
use activex_endpoint.Consensus.DirtyTracker.{
  DirtyTracker, mark_function_dirty, should_flush, pending_count, drain,
}
use activex_endpoint.Consensus.DirtyTracker
use activex_endpoint.Consensus.Loop.{Peer, Node, Push, members_of}
use activex_endpoint.Consensus.DirtyTracker.Replay.{Mark, mark, mark_all, Replays}
use activex_endpoint.Consensus.Loop.Quorum.{
  Config, Tick, run_ticks, losses, restorations, has_quorum, run_ticks-quorum,
}
use activex_endpoint.Consensus.Loop.Flush.{
  ids_seen, tick, no_changes, Quiet, run_consensus_tick-leader, run_consensus_tick-one_pushes,
}

node : String → Node
node self_id = record {
  elector = Elector.init self_id;
  tracker = mark_function_dirty (DirtyTracker.init 1) "f:1" (1 ∷ []) 3;
  state = initial;
  memory = record { high_water_mark = 0; previous_member_ids = none };
}

abbrev peer : String → Peer
peer id = record { peer_id = id; rpc_uri = "tcp://0.0.0.0:5555" }

abbrev config : Config
config = record { self_id = "node-b"; idle_seconds = 5; local_mode = false }

abbrev ticks : List Tick
ticks =
    record { peers = peer "node-a" ∷ peer "node-c" ∷ []; now = 1 }
    ∷ record { peers = []; now = 2 }
    ∷ record { peers = peer "node-a" ∷ []; now = 3 }
    ∷ []

run_ticks-quorum_example :
    let (last, events) = run_ticks config (node "node-b") ticks in
    losses events ≡ restorations events + (if has_quorum last.memory then 0 else 1)
unfolding node
run_ticks-quorum_example = run_ticks-quorum config (node "node-b") ticks refl

due : should_flush (node "node-b").tracker 9 5 ≡ true
unfolding node should_flush pending_count mark_function_dirty Dict.put
due = refl

greatest : IsGreatest (ids_seen (node "node-b") (peer "node-a" ∷ []) false) "node-b"
unfolding node contains members_of Elector.init str_le
greatest = (
  refl,
  λ a h. elim (Bool-cases ("node-b" == a)) [
    | inl b_is ↦ rw (← (string_eq.beq_iff "node-b" a).0 b_is)
    | inr b_not ↦ elim (Bool-cases ("node-a" == a)) [
      | inl a_is ↦ rw (← (string_eq.beq_iff "node-a" a).0 a_is)
      | inr a_not ↦
          let lone : ("node-b" == a || ("node-a" == a || false)) ≡ false = rw (b_not, a_not) in
          absurd (ground (arith, sym h ∙ lone))
    ]
  ],
)

abbrev marks : List Mark
marks = Mark.function "f:1" (1 ∷ []) 3 ∷ []

began : (node "node-b").tracker ≡ mark_all (DirtyTracker.init 1) marks
unfolding node mark mark_all
began = refl

run_consensus_tick-leader_example :
    let n = node "node-b" in
    let after = tick n (peer "node-a" ∷ []) 5 9 false in
    (pending_count after.node.tracker ≡ 0)
    × Replays n.state marks after.node.state
    × (map (λ (p : Push). p.rpc_uri) after.pushes ≡ (
        if no_changes (drain n.tracker).1
        then []
        else map (λ (m : ClusterMember). m.rpc_uri) (members_of (peer "node-a" ∷ []) false)))
    × All
        (λ (p : Push). (s : ClusterState) → Replays s marks (apply_local s p.mutation))
        after.pushes
unfolding node Elector.init
run_consensus_tick-leader_example =
    run_consensus_tick-leader (node "node-b") (peer "node-a" ∷ []) 5 9 false 1 marks began greatest
      due

apart : (node "node-a").elector.self_id ≢ (node "node-b").elector.self_id
unfolding node Elector.init
apart h =
    let same : string_eq.beq "node-a" "node-b" ≡ true = (string_eq.beq_iff "node-a" "node-b").1 h in
    ground (arith, same)

same_ids :
    (a : String)
    → contains (ids_seen (node "node-a") (peer "node-b" ∷ []) false) a
      ≡ contains (ids_seen (node "node-b") (peer "node-a" ∷ []) false) a
unfolding node contains members_of Elector.init
same_ids a = ground arith

run_consensus_tick-one_pushes_example :
    Quiet (node "node-a") (peer "node-b" ∷ []) 5 9 false
    ⊎ Quiet (node "node-b") (peer "node-a" ∷ []) 5 8 false
unfolding node Elector.init
run_consensus_tick-one_pushes_example =
    run_consensus_tick-one_pushes (node "node-a") (node "node-b") (peer "node-b" ∷ [])
      (peer "node-a" ∷ []) 5 9 8 false apart same_ids
