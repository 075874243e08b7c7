-- ===== src/Consensus/Loop.antt =====
-- axo_endpoint/service/consensus_loop.py, with the address rule of
-- axo_endpoint/service/transport/address.py. A tick returns the events and the pushes that it makes.
pub mod Quorum
pub mod Flush
use activex_endpoint.Prelude.{
  ℕ, ◌+◌, ◌/◌, String, Bool, true, false, not, ◌&&◌, ◌||◌, Option, none, some, List, [], ◌∷◌, ◌++◌,
  map, filter, length, is_empty, leb, max, if◌then◌else◌, ◌==◌, nat_eq, string_eq,
}
use activex_endpoint.Prelude.Sets.{contains}
use activex_endpoint.Text.{concat, rpartition_colon}
use activex_endpoint.Consensus.Elector.{
  ClusterMember, LeaderView, BullyLeaderElector, current_view, recompute,
}
use activex_endpoint.Consensus.StateMachine.{ClusterState, StateMutation, apply_local}
use activex_endpoint.Consensus.DirtyTracker.{DirtyTracker, should_flush, drain}

-- A peer of `heartbeat_subscriber.list_peers()`.
pub record Peer : Type 0 where
  pub peer_id : String
  pub rpc_uri : String

abbrev last_part : String → Option (String × String) → String
last_part s none = s
last_part s (some (before, after)) = after

unfoldable pub resolve_peer_address : String → String → Bool → String
resolve_peer_address bind_address peer_id local_mode =
    let port = last_part bind_address (rpartition_colon bind_address) in
    let host = if local_mode then "localhost" else peer_id in
    concat "tcp://" (concat host (concat ":" port))

unfoldable pub members_of : List Peer → Bool → List ClusterMember
unfolding resolve_peer_address
members_of peers local_mode =
    map
      (λ (p : Peer). record {
        peer_id = p.peer_id;
        rpc_uri = resolve_peer_address p.rpc_uri p.peer_id local_mode;
      })
      peers

-- `frozenset(xs)`, without the ids that come again later.
unfoldable pub frozenset : List String → List String
frozenset [] = []
frozenset (x ∷ xs) = let rest = frozenset xs in if contains rest x then rest else x ∷ rest

unfoldable pub quorum_size : ℕ → ℕ
quorum_size high_water = high_water / 2 + 1

pub data BusEvent : Type 0 where
  quorum_lost quorum_restored : (term member_count quorum : ℕ) → BusEvent
  degraded : (term member_count quorum : ℕ) (evicted_peer_id : String) → BusEvent
  leader_elected : LeaderView → BusEvent
  view_changed : LeaderView → (was_leader is_leader : Bool) → BusEvent

abbrev evictions : ℕ → ℕ → ℕ → List String → List BusEvent
evictions term member_count quorum gone = map (λ p. degraded term member_count quorum p) gone

abbrev quorum_change : Bool → Bool → ℕ → ℕ → ℕ → List String → List BusEvent
quorum_change true false term count quorum gone = quorum_lost term count quorum ∷ []
quorum_change false true term count quorum gone = quorum_restored term count quorum ∷ []
quorum_change true true term count quorum gone = evictions term count quorum gone
quorum_change false false term count quorum gone = []

-- What survives from one tick to the next.
pub record Memory : Type 0 where
  pub high_water_mark : ℕ
  pub previous_member_ids : Option (List String)

unfoldable pub quorum_events : Memory → List String → ℕ → List BusEvent
unfolding quorum_size
quorum_events m member_ids term = elim m.previous_member_ids [
  | none ↦ []
  | some previous ↦
      let high_water = max m.high_water_mark (length member_ids) in
      quorum_change (leb (quorum_size m.high_water_mark) (length previous))
        (leb (quorum_size high_water) (length member_ids)) term (length member_ids)
        (quorum_size high_water) (filter (λ p. not (contains member_ids p)) previous)
]

unfoldable pub leader_events : LeaderView → LeaderView → Bool → Bool → List BusEvent
leader_events previous view was_leader is_leader =
    (if view.term == previous.term then [] else leader_elected view ∷ [])
    ++ (if was_leader
        then (if is_leader then [] else view_changed view was_leader is_leader ∷ [])
        else if is_leader
        then view_changed view was_leader is_leader ∷ []
        else [])

-- A call of `push_to_peer_fn`.
pub record Push : Type 0 where
  pub rpc_uri : String
  pub view : LeaderView
  pub member_ids : List String
  pub mutation : StateMutation

pub record Node : Type 0 where
  pub elector : BullyLeaderElector
  pub tracker : DirtyTracker
  pub state : ClusterState
  pub memory : Memory

unfoldable pub pushes_of : List ClusterMember → LeaderView → List String → StateMutation → List Push
pushes_of members view member_ids mutation =
    if is_empty mutation.function_changes
      && (is_empty mutation.data_changes && is_empty mutation.bucket_changes)
    then []
    else map
        (λ (m : ClusterMember). record {
          rpc_uri = m.rpc_uri;
          view = view;
          member_ids = member_ids;
          mutation = mutation;
        })
        members

-- The end of a tick: the drain and the pushes, if this node leads and a flush is due.
unfoldable pub flush :
    Node → Bool → List ClusterMember → LeaderView → List String → ℕ → ℕ → Node × List Push
unfolding pushes_of
flush n is_leader members view member_ids idle_seconds now =
    let (tracker, mutation) = drain n.tracker in
    if is_leader && should_flush n.tracker now idle_seconds
    then (
      record n { tracker = tracker; state = apply_local n.state mutation },
      pushes_of members view member_ids mutation,
    )
    else (n, [])

pub record Ticked : Type 0 where
  pub node : Node
  pub events : List BusEvent
  pub pushes : List Push

-- `run_consensus_tick`, with an event bus.
unfoldable pub run_consensus_tick : Node → String → List Peer → ℕ → ℕ → Bool → Ticked
unfolding members_of frozenset quorum_events leader_events flush
run_consensus_tick n self_id peers idle_seconds now local_mode =
    let members = members_of peers local_mode in
    let previous = current_view n.elector in
    let was_leader = contains previous.leader_ids self_id in
    let (elector, view) = recompute n.elector members now in
    let is_leader = contains view.leader_ids self_id in
    let member_ids = frozenset (self_id ∷ map (λ m. m.peer_id) members) in
    let memory : Memory = record {
      high_water_mark = max n.memory.high_water_mark (length member_ids);
      previous_member_ids = some member_ids;
    } in
    let (node, pushes) =
      flush (record n { elector = elector; memory = memory }) is_leader members view member_ids
        idle_seconds now in
    record {
      node = node;
      events =
          quorum_events n.memory member_ids view.term
          ++ leader_events previous view was_leader is_leader;
      pushes = pushes;
    }
