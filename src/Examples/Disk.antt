-- ===== src/Examples/Disk.antt =====
-- The theorems about data requests and the replication of blobs, at concrete inputs.
use activex_endpoint.Prelude.{
  ◌≡◌, ◌⊎◌, String, true, false, none, some, [], ◌∷◌, string_eq, pair_eq, nat_eq,
}
use activex_endpoint.Prelude.Dict
use activex_endpoint.Prelude.Dict.{Dict}
use activex_endpoint.Prelude.Outcome.{ok}
use activex_endpoint.Text
use activex_endpoint.Storage.InMemory
use activex_endpoint.Storage.Backend.FromMemory.{in_memory}
use activex_endpoint.Data.Models.{Bytes, DataRecord, BlobBackend, HashLib}
use activex_endpoint.Data.Registry.{DataRegistry, register, store_chunk}
use activex_endpoint.Data.Requests
use activex_endpoint.Data.Requests.Refs
use activex_endpoint.Data.Requests.Refs.{IoRef}
use activex_endpoint.Data.Requests.{DataEndpoint}
use activex_endpoint.Service.BlobReplication.{Settings, run_tick}
use activex_endpoint.Service.BlobReplication.Soundness.{IsSound, run_tick-IsSound}
use activex_endpoint.Examples.Wire.{wire}

abbrev chunks : BlobBackend
chunks = record {
  Store = Dict String Bytes;
  Error = Unit;
  put = λ s k x. (Dict.put s k x, ok tt);
  get = λ s k. ok (Dict.get s k);
  delete = λ s k. (Dict.pop s k, ok tt);
  exists = λ s k. ok (Dict.has s k);
}

abbrev no_hash : HashLib
no_hash = record { State = Unit; new = λ a. tt; update = λ s x. tt; hexdigest = λ s. "" }

abbrev registry : DataRegistry (in_memory DataRecord) chunks no_hash
registry = record {
  catalog = InMemory.init;
  blob_backends = ("fs", []) ∷ [];
  open_streams = [];
  hash_cache = [];
  completed_uploads = [];
  emitted = [];
}

abbrev endpoint : DataEndpoint (in_memory DataRecord) chunks no_hash wire
endpoint = record { registry = registry; configured = true }

abbrev result_ref : IoRef
result_ref = record { kind = "fs"; location = "out/result"; format = "raw"; chunk_index = none }

-- One chunk of a registered record is here, and the peer has none of it.
abbrev stored : DataRegistry (in_memory DataRecord) chunks no_hash
stored =
    (store_chunk (in_memory DataRecord) chunks no_hash
      (register (in_memory DataRecord) chunks no_hash registry "d" 1 "raw" "fs" 2 2 5 none
        "sha256").0
      "d" 1 0 (7 ∷ 8 ∷ []) 6).0

abbrev photo : DataRecord
photo = record {
  name = "d";
  version = 1;
  alias = "d";
  format = "raw";
  kind = "fs";
  total_size = 2;
  chunk_bytes = 2;
  total_chunks = 1;
  created_at = 5;
  declared_hash = none;
  content_hash_algo = "sha256";
}

abbrev settings : Settings
settings = record {
  rate_limit = 1;
  enabled_kinds = "fs" ∷ [];
  recheck_seconds = 300;
  members = record { peer_id = "node-b"; rpc_uri = "tcp://node-b:5555" } ∷ [];
  query = λ uri name version.
      some (record { present_chunk_indices = []; complete = false; latency_ms = 2 });
  elapsed_seconds = 5;
  now = 9;
}

run_tick-IsSound_example :
    let p =
      (run_tick (in_memory DataRecord) chunks no_hash settings true (photo ∷ []) stored []).0 in
    IsSound (in_memory DataRecord) chunks no_hash settings (photo ∷ []) stored p
    × ((true ≡ true) ⊎ (p.pushes ≡ []))
run_tick-IsSound_example =
    run_tick-IsSound (in_memory DataRecord) chunks no_hash settings true (photo ∷ []) stored []
