-- ===== src/Functions/Registry.antt =====
-- axo_endpoint/core/functions/registry.py, over any storage backend. The event bus is the list of
-- the events that were emitted. Times are ticks, and so are the float limits of a runtime spec.
pub mod Versions
pub mod Effects
pub mod Histories
use activex_endpoint.Prelude.{
  ℕ, zero, ◌+◌, String, Bool, true, false, not, Option, none, some, List, [], ◌∷◌, ◌++◌, map,
  filter, is_empty, if◌then◌else◌, leb, string_eq,
}
use activex_endpoint.Prelude.Dict
use activex_endpoint.Prelude.Dict.{Dict}
use activex_endpoint.Prelude.Sets.{contains}
use activex_endpoint.Prelude.Outcome.{Result, ok, err}
use activex_endpoint.Storage.Key.{StorageKey}
use activex_endpoint.Storage.Backend.{StorageBackend}
use activex_endpoint.Storage.InMemory.Laws.{full_key}
use activex_endpoint.Functions.Lifecycle.{FunctionState, registered, is_valid_transition}
use activex_endpoint.Functions.Params.{ParamSpec}

-- `RuntimeSpec` of axo_shared/axo_shared/runtime/spec.py.
pub record RuntimeSpec : Type 0 where
  pub type : String
  pub python_version : String
  pub requirements : List String
  pub image : Option String
  pub env_vars : Dict String String
  pub idle_ttl_seconds : ℕ
  pub max_invocations : ℕ
  pub memory_limit_bytes : Option ℕ
  pub cpu_limit : Option ℕ
  pub max_concurrency : ℕ
  pub max_duration_seconds : ℕ
  pub max_retries : ℕ

-- `RuntimeSpec()`
abbrev pub default_spec : RuntimeSpec
default_spec = record {
  type = "process";
  python_version = "3.11";
  requirements = [];
  image = none;
  env_vars = [];
  idle_ttl_seconds = 300;
  max_invocations = 0;
  memory_limit_bytes = none;
  cpu_limit = none;
  max_concurrency = 1;
  max_duration_seconds = 0;
  max_retries = 3;
}

-- axo_shared/axo_shared/functions/models.py
pub record FunctionRecord : Type 0 where
  pub code : List ℕ
  pub function_id : String
  pub name : String
  pub version : ℕ
  pub created_at : ℕ
  pub state : FunctionState
  pub runtime_spec : Option RuntimeSpec
  pub code_format : String
  pub params_schema : Option (List ParamSpec)

pub data EventType : Type 0 where
  function_updated function_deleted : EventType
  entered : FunctionState → EventType

-- The payload is the id and the version of the key.
pub record Event : Type 0 where
  pub event_type : EventType
  pub function_id : String
  pub version : Option ℕ
  pub timestamp : ℕ

abbrev version_of : StorageKey → ℕ
version_of k = elim k.version [ none ↦ 0 | some v ↦ v ]

-- `max(versions, default=0)`
unfoldable pub max_version : List StorageKey → ℕ
max_version [] = 0
max_version (k ∷ ks) =
    let rest = max_version ks in if leb (version_of k) rest then rest else version_of k

abbrev schema_or_empty : Option (List ParamSpec) → List ParamSpec
schema_or_empty none = []
schema_or_empty (some specs) = specs

-- Additive: names that are declared already keep their declaration.
unfoldable pub merge_schema : Option (List ParamSpec) → List ParamSpec → Option (List ParamSpec)
merge_schema current additions =
    let names = map (λ (p : ParamSpec). p.name) (schema_or_empty current) in
    if is_empty additions
    then current
    else some (schema_or_empty current ++ filter (λ p. not (contains names p.name)) additions)

abbrev spec_or_default : Option RuntimeSpec → RuntimeSpec
spec_or_default none = default_spec
spec_or_default (some spec) = spec

with_env : RuntimeSpec → Dict String String → RuntimeSpec
with_env spec env_vars = record spec { env_vars = Dict.update spec.env_vars env_vars }

unfoldable pub merge_env : Option RuntimeSpec → Dict String String → Option RuntimeSpec
unfolding with_env
merge_env current env_vars =
    if is_empty env_vars then current else some (with_env (spec_or_default current) env_vars)

module _ (b : StorageBackend FunctionRecord) where
  pub record FunctionRegistry : Type 0 where
    pub store : b.Store
    pub emitted : List Event

  pub data RegistryError : Type 0 where
    storage : b.Error → RegistryError
    not_found : StorageKey → RegistryError
    invalid_transition : FunctionState → FunctionState → RegistryError

  abbrev pub Reply : Type 0 → Type 0
  Reply A = FunctionRegistry × Result RegistryError A

  -- `put`, then the event and the result if it went well.
  store_and_emit :
      {A : Type 0} → FunctionRegistry → StorageKey → FunctionRecord → EventType → ℕ → A → Reply A
  store_and_emit r key function_record event_type now result =
      let (s, stored) = b.put r.store key function_record in
      elim stored [
        | err e ↦ (record r { store = s }, err (storage e))
        | ok _ ↦ (
          record {
            store = s;
            emitted =
                r.emitted
                ++ record {
                  event_type = event_type;
                  function_id = key.id;
                  version = key.version;
                  timestamp = now;
                }
                  ∷ [];
          },
          ok result,
        )
      ]

  unfoldable pub register :
      FunctionRegistry
      → String
      → String
      → List ℕ
      → ℕ
      → Option RuntimeSpec
      → String
      → Option (List ParamSpec)
      → Reply StorageKey
  unfolding store_and_emit
  register r function_id name code now runtime_spec code_format params_schema =
      elim (b.list_versions r.store function_id) [
        | err e ↦ (r, err (storage e))
        | ok ks ↦
            let next_version = max_version ks + 1 in
            let key = full_key function_id next_version in
            store_and_emit r key
              (record {
                code = code;
                function_id = function_id;
                name = name;
                version = next_version;
                created_at = now;
                state = registered;
                runtime_spec = runtime_spec;
                code_format = code_format;
                params_schema = params_schema;
              })
              (entered registered) now key
      ]

  -- The reads of `transition`, `update` and `delete`: an error, nothing there, or the record.
  with_current : {A : Type 0} → FunctionRegistry → StorageKey → (FunctionRecord → Reply A) → Reply A
  with_current r key act = elim (b.get r.store key) [
    | err e ↦ (r, err (storage e))
    | ok none ↦ (r, err (not_found key))
    | ok (some current) ↦ act current
  ]

  unfoldable pub transition :
      FunctionRegistry → StorageKey → FunctionState → ℕ → Reply FunctionRecord
  unfolding store_and_emit with_current
  transition r key to now = with_current r key λ current.
      let updated = record current { state = to } in
      if is_valid_transition current.state to
      then store_and_emit r key updated (entered to) now updated
      else (r, err (invalid_transition current.state to))

  -- `none` for the optional arguments is the empty list.
  unfoldable pub update :
      FunctionRegistry → StorageKey → ℕ → List ParamSpec → Dict String String → Reply FunctionRecord
  unfolding store_and_emit with_current
  update r key now params_schema env_vars = with_current r key λ current.
      let updated = record current {
        params_schema = merge_schema current.params_schema params_schema;
        runtime_spec = merge_env current.runtime_spec env_vars;
      } in
      store_and_emit r key updated function_updated now updated

  unfoldable pub delete : FunctionRegistry → StorageKey → ℕ → Reply StorageKey
  unfolding with_current
  delete r key now = with_current r key λ current.
      let (s, deleted) = b.delete r.store key in
      elim deleted [
        | err e ↦ (record r { store = s }, err (storage e))
        | ok _ ↦ (
          record {
            store = s;
            emitted =
                r.emitted
                ++ record {
                  event_type = function_deleted;
                  function_id = key.id;
                  version = key.version;
                  timestamp = now;
                }
                  ∷ [];
          },
          ok key,
        )
      ]
