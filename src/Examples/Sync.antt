-- ===== src/Examples/Sync.antt =====
-- The theorems about the sync bridges, at concrete inputs.
use activex_endpoint.Prelude.{◌≡◌, refl, true, none, some, List, [], ◌∷◌, string_eq, nat_eq}
use activex_endpoint.Prelude.Outcome.{◌>>=◌}
use activex_endpoint.Storage.InMemory
use activex_endpoint.Storage.InMemory.Laws.{init-IsIndexed}
use activex_endpoint.Storage.Backend.{StorageBackend, IsMap, WritesGoThrough}
use activex_endpoint.Storage.Backend.FromMemory.{
  in_memory, in_memory-IsMap, in_memory-WritesGoThrough,
}
use activex_endpoint.Functions.Lifecycle.{registered}
use activex_endpoint.Functions.Params.{string, number, object, close, field}
use activex_endpoint.Functions.Registry.{FunctionRecord, FunctionRegistry, default_spec}
use activex_endpoint.Consensus.StateMachine.{ClusterState}
use activex_endpoint.Consensus.DirtyTracker.{init, drain}
use activex_endpoint.Consensus.Sync.Functions.{
  serialize_function_record, deserialize_function_record,
}
use activex_endpoint.Consensus.Sync.Leader.{Call, register, update, delete, Leader, call_all}
use activex_endpoint.Consensus.Sync.Records.{seen, deserialize-serialize_function_record}
use activex_endpoint.Consensus.Sync.Replication.{InSync, apply_incoming-InSync}
use activex_endpoint.Consensus.Sync.Wire.{encode_cluster_state, decode_cluster_state}
use activex_endpoint.Consensus.Sync.Wire.RoundTrip.{decode_cluster_state-encode_cluster_state}
use activex_endpoint.Examples.Wire.{wire, wire-IsFaithful}

abbrev backend : StorageBackend FunctionRecord
backend = in_memory FunctionRecord

abbrev laws : IsMap backend
laws = in_memory-IsMap FunctionRecord

abbrev writes : WritesGoThrough backend laws
writes = in_memory-WritesGoThrough FunctionRecord

abbrev empty : FunctionRegistry backend
empty = record { store = InMemory.init; emitted = [] }

abbrev calls : List Call
calls =
    register "f" "resize" (1 ∷ 2 ∷ []) (some default_spec) "pickle" none 3
    ∷ update "f" 1 [] (("MODE", "fast") ∷ []) 4
    ∷ register "f" "resize" (5 ∷ []) none "pickle" (some []) 5
    ∷ delete "f" 1 6
    ∷ []

abbrev leader : Leader backend
leader = call_all backend wire (record { registry = empty; tracker = init 10 }) calls

apply_incoming-InSync_example :
    InSync backend laws writes wire wire-IsFaithful leader.registry.store
      (drain leader.tracker).1.function_changes
      InMemory.init
apply_incoming-InSync_example =
    apply_incoming-InSync backend laws writes wire wire-IsFaithful empty 10 calls InMemory.init
      init-IsIndexed init-IsIndexed (λ g u. refl)

abbrev resize : FunctionRecord
resize = record {
  code = 1 ∷ 2 ∷ [];
  function_id = "f";
  name = "resize";
  version = 1;
  created_at = 3;
  state = registered;
  runtime_spec = some default_spec;
  code_format = "pickle";
  params_schema = some (
      record { name = "width"; type = "number"; required = true; default = some (number "12") }
      ∷ []);
}

deserialize-serialize_function_record_example :
    deserialize_function_record wire (serialize_function_record wire resize) ≡ some (seen resize)
deserialize-serialize_function_record_example =
    deserialize-serialize_function_record wire wire-IsFaithful resize

abbrev snapshot : ClusterState
snapshot = record {
  term = 2;
  leader_ids = "node-b" ∷ [];
  members = "node-a" ∷ "node-b" ∷ [];
  functions = ("f:1", wire.dumps (object (field "name" (string "resize") close))) ∷ [];
  stored = [];
  buckets = ("photos", wire.dumps (object (field "quota_bytes" (number "9") close))) ∷ [];
  version = 7;
}

decode_cluster_state-encode_cluster_state_example :
    (encode_cluster_state wire snapshot >>= decode_cluster_state wire) ≡ some snapshot
decode_cluster_state-encode_cluster_state_example =
    decode_cluster_state-encode_cluster_state wire wire-IsFaithful snapshot ((_, refl), tt) tt
      ((_, refl), tt)
