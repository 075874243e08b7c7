-- ===== src/Consensus/StateMachine.antt =====
-- axo_endpoint/core/consensus/state_machine.py: the replicated view of the cluster. Blobs are bytes
-- that this component never opens. The lock makes each method one step.
pub mod Folding
pub mod Convergence
use activex_endpoint.Prelude.{
  ℕ, ◌+◌, String, Bool, true, false, Option, none, some, List, [], leb, if◌then◌else◌, string_eq,
}
use activex_endpoint.Prelude.Dict
use activex_endpoint.Prelude.Dict.{Dict}
use activex_endpoint.Consensus.Elector.{LeaderView}

abbrev pub Bytes : Type 0
Bytes = List ℕ

pub record ClusterState : Type 0 where
  pub term : ℕ
  pub leader_ids : List String
  pub members : List String
  pub functions : Dict String Bytes
  pub stored : Dict String Bytes
  pub buckets : Dict String Bytes
  pub version : ℕ

pub record StateMutation : Type 0 where
  pub function_changes : Dict String Bytes
  pub data_changes : Dict String Bytes
  pub bucket_changes : Dict String Bytes
  pub leader_view : Option LeaderView

-- `ClusterState()`
abbrev pub initial : ClusterState
initial = record {
  term = 0;
  leader_ids = [];
  members = [];
  functions = [];
  stored = [];
  buckets = [];
  version = 0;
}

unfoldable pub apply_local : ClusterState → StateMutation → ClusterState
apply_local s m = record {
  term = elim m.leader_view [ none ↦ s.term | some view ↦ view.term ];
  leader_ids = elim m.leader_view [ none ↦ s.leader_ids | some view ↦ view.leader_ids ];
  members = s.members;
  functions = Dict.update s.functions m.function_changes;
  stored = Dict.update s.stored m.data_changes;
  buckets = Dict.update s.buckets m.bucket_changes;
  version = s.version + 1;
}

-- The state after the call, and whether it changed.
unfoldable pub apply_remote : ClusterState → ClusterState → ClusterState × Bool
apply_remote s incoming = if leb incoming.version s.version then (s, false) else (incoming, true)
