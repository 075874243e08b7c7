-- ===== src/Consensus/Sync/Functions.antt =====
-- axo_endpoint/core/consensus/registry_sync.py. The results of the backend's writes are not read.
use activex_endpoint.Prelude.{
  ℕ, String, Bool, true, false, Option, none, some, List, [], ◌∷◌, if◌then◌else◌, ◌==◌, string_eq,
}
use activex_endpoint.Prelude.Dict.{Dict}
use activex_endpoint.Prelude.Outcome.{ok, err, ◌>>=◌}
use activex_endpoint.Storage.Backend.{StorageBackend}
use activex_endpoint.Functions.Lifecycle.{
  FunctionState, registered, cold_start, running, completed, failed, idle, evicted,
}
use activex_endpoint.Functions.Params.{
  Json, null, string, object, Fields, close, field, field_of, ParamSpec,
}
use activex_endpoint.Functions.Registry.{
  RuntimeSpec, FunctionRecord, FunctionRegistry, Event, entered, function_updated, function_deleted,
}
use activex_endpoint.Functions.Codec.{
  to_string, to_nat, required, get_or, number_of, or_null, params_schema_to_list,
  parse_params_schema, spec_to_dict, spec_from_dict,
}
use activex_endpoint.Consensus.StateMachine.{Bytes}
use activex_endpoint.Consensus.DirtyTracker.{DirtyTracker, mark_function_dirty}
use activex_endpoint.Consensus.Sync.{
  WireLib, combined_key, split_key, key_of, serialize_tombstone, is_tombstone,
}

-- `FunctionState.value`, and `FunctionState(value)`.
abbrev pub state_value : FunctionState → String
state_value registered = "REGISTERED"
state_value cold_start = "COLD_START"
state_value running = "RUNNING"
state_value completed = "COMPLETED"
state_value failed = "FAILED"
state_value idle = "IDLE"
state_value evicted = "EVICTED"

abbrev pub state_of : String → Option FunctionState
state_of s =
    if s == "REGISTERED"
    then some registered
    else if s == "COLD_START"
    then some cold_start
    else if s == "RUNNING"
    then some running
    else if s == "COMPLETED"
    then some completed
    else if s == "FAILED"
    then some failed
    else if s == "IDLE"
    then some idle
    else if s == "EVICTED"
    then some evicted
    else none

-- The document of `serialize_function_record`.
unfoldable pub function_document : WireLib → FunctionRecord → Json
function_document w r = object (
    field "code_b64" (string (w.b64encode r.code)) (
      field "function_id" (string r.function_id) (
        field "name" (string r.name) (
          field "version" (number_of r.version) (
            field "created_at" (number_of r.created_at) (
              field "state" (string (state_value r.state)) (
                field "runtime_spec" (or_null (λ s. object (spec_to_dict s)) r.runtime_spec) (
                  field "code_format" (string r.code_format)
                    (field "params_schema" (params_schema_to_list r.params_schema) close)))))))))

unfoldable pub serialize_function_record : WireLib → FunctionRecord → Bytes
unfolding function_document
serialize_function_record w r = w.dumps (function_document w r)

-- An absent, null or empty spec is None.
unfoldable pub read_spec : Option Json → Option (Option RuntimeSpec)
read_spec none = some none
read_spec (some null) = some none
read_spec (some (object close)) = some none
read_spec (some (object fs)) = do s ← spec_from_dict fs; some (some s)
read_spec (some v) = none

-- `specs or None`
abbrev pub specs_or_none : List ParamSpec → Option (List ParamSpec)
specs_or_none [] = none
specs_or_none (p ∷ ps) = some (p ∷ ps)

unfoldable pub record_from_dict : WireLib → Fields → Option FunctionRecord
unfolding read_spec
record_from_dict w d = do
  code_b64 ← required to_string d "code_b64"
  code ← w.b64decode code_b64
  function_id ← required to_string d "function_id"
  name ← required to_string d "name"
  version ← required to_nat d "version"
  created_at ← required to_nat d "created_at"
  value ← required to_string d "state"
  state ← state_of value
  runtime_spec ← read_spec (field_of d "runtime_spec")
  code_format ← get_or to_string d "code_format" "cloudpickle"
  specs ← parse_params_schema (field_of d "params_schema")
  some (record {
    code = code;
    function_id = function_id;
    name = name;
    version = version;
    created_at = created_at;
    state = state;
    runtime_spec = runtime_spec;
    code_format = code_format;
    params_schema = specs_or_none specs;
  })

abbrev record_from_json : WireLib → Json → Option FunctionRecord
record_from_json w (object d) = record_from_dict w d
record_from_json w v = none

unfoldable pub deserialize_function_record : WireLib → Bytes → Option FunctionRecord
unfolding record_from_dict
deserialize_function_record w blob = do v ← w.loads blob; record_from_json w v

-- One change as `apply_incoming` reads it: `none` for an exception, `some none` for a tombstone.
abbrev read_unless : WireLib → Bytes → Bool → Option (Option FunctionRecord)
read_unless w blob true = some none
read_unless w blob false = do r ← deserialize_function_record w blob; some (some r)

unfoldable pub read_change : WireLib → Bytes → Option (Option FunctionRecord)
unfolding is_tombstone deserialize_function_record
read_change w blob = do dead ← is_tombstone w blob; read_unless w blob dead

-- The id, the version and the change of one item.
unfoldable pub read_item : WireLib → String × Bytes → Option (String × ℕ × Option FunctionRecord)
unfolding split_key read_change
read_item w (k, blob) = do
  key ← split_key k
  change ← read_change w blob
  some (key.0, key.1, change)

module _ (b : StorageBackend FunctionRecord) (w : WireLib) where
  -- `FunctionRegistry.get`, and what `on_function_event` does with its result.
  unfoldable pub on_function_event :
      FunctionRegistry b → DirtyTracker → String → Option ℕ → ℕ → DirtyTracker
  unfolding serialize_function_record
  on_function_event r t function_id version now =
      elim (b.get r.store (key_of function_id version)) [
        | err e ↦ t
        | ok none ↦ t
        | ok (some current) ↦
            mark_function_dirty t (combined_key function_id version)
              (serialize_function_record w current) now
      ]

  unfoldable pub on_function_updated :
      FunctionRegistry b → DirtyTracker → String → Option ℕ → ℕ → DirtyTracker
  unfolding on_function_event
  on_function_updated r t function_id version now = on_function_event r t function_id version now

  unfoldable pub on_function_deleted : DirtyTracker → String → Option ℕ → ℕ → DirtyTracker
  on_function_deleted t function_id version now =
      mark_function_dirty t (combined_key function_id version) (serialize_tombstone w) now

  -- The subscriptions of axo_endpoint/service/app.py.
  unfoldable pub deliver : FunctionRegistry b → DirtyTracker → Event → ℕ → DirtyTracker
  unfolding on_function_event on_function_updated on_function_deleted
  deliver r t event now = elim event.event_type [
    | entered registered ↦ on_function_event r t event.function_id event.version now
    | entered state ↦ t
    | function_updated ↦ on_function_updated r t event.function_id event.version now
    | function_deleted ↦ on_function_deleted t event.function_id event.version now
  ]

  -- The store that the loop leaves, the events that it emitted, and whether it went through.
  pub record Applied : Type 0 where
    pub store : b.Store
    pub replicated : List (String × ℕ)
    pub finished : Bool

  unfoldable pub apply_change : b.Store → String → ℕ → Option FunctionRecord → b.Store
  apply_change s function_id version none = (b.delete s (key_of function_id (some version))).0
  apply_change s function_id version (some r) = (b.put s (key_of function_id (some version)) r).0

  -- FUNCTION_REPLICATED, for a record that was written.
  abbrev announced : String → ℕ → Option FunctionRecord → List (String × ℕ) → List (String × ℕ)
  announced function_id version none rest = rest
  announced function_id version (some r) rest = (function_id, version) ∷ rest

  unfoldable pub apply_incoming : b.Store → Dict String Bytes → Applied
  unfolding read_item apply_change
  apply_incoming s [] = record { store = s; replicated = []; finished = true }
  apply_incoming s (change ∷ changes) = elim (read_item w change) [
    | none ↦ record { store = s; replicated = []; finished = false }
    | some (function_id, version, r) ↦
        let rest = apply_incoming (apply_change s function_id version r) changes in
        record rest { replicated = announced function_id version r rest.replicated }
  ]
