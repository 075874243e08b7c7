-- ===== src/Examples/Functions.antt =====
-- The theorems about functions, at concrete inputs.
use activex_endpoint.Prelude.{
  ℕ, ◌<◌, String, ◌≡◌, refl, true, none, some, List, [], ◌∷◌, All, string_eq,
}
use activex_endpoint.Prelude.Dict
use activex_endpoint.Prelude.Dict.{Dict}
use activex_endpoint.Prelude.Sets.{contains}
use activex_endpoint.Prelude.Order.{sorted_set}
use activex_endpoint.Prelude.Outcome.{ok}
use activex_endpoint.Storage.InMemory
use activex_endpoint.Storage.InMemory.Laws.{full_key, init-IsIndexed, put-IsIndexed}
use activex_endpoint.Storage.Backend.{StorageBackend, IsMap}
use activex_endpoint.Storage.Backend.FromMemory.{in_memory, in_memory-IsMap}
use activex_endpoint.Functions.Lifecycle.{
  FunctionState, registered, cold_start, running, completed, is_valid_transition,
}
use activex_endpoint.Functions.Lifecycle.Runs.{start, change, Visited, Run-Needs}
use activex_endpoint.Functions.Params.{
  Json, string, ParamSpec, validate_and_fill_params, fill, unknown, type_matches,
}
use activex_endpoint.Functions.Params.Validation.{Accepts, names, validate_and_fill_params-Accepts}
use activex_endpoint.Functions.Registry.{
  FunctionRecord, FunctionRegistry, entered, register, transition, max_version,
}
use activex_endpoint.Functions.Registry.Histories.{RegistryCall, registers, moves}
use activex_endpoint.Functions.Registry.Versions.{Writes, register_lem, transition_lem}

cold : is_valid_transition registered cold_start ≡ true
unfolding is_valid_transition
cold = refl

warm : is_valid_transition cold_start running ≡ true
unfolding is_valid_transition
warm = refl

Run-Needs_example :
    let r = change (change start cold_start cold) running warm in
    Visited cold_start r × Visited running r
Run-Needs_example = Run-Needs (change (change start cold_start cold) running warm)

abbrev backend : StorageBackend FunctionRecord
backend = in_memory FunctionRecord

abbrev laws : IsMap backend
laws = in_memory-IsMap FunctionRecord

abbrev resize : FunctionState → FunctionRecord
resize s = record {
  code = 1 ∷ [];
  function_id = "f";
  name = "resize";
  version = 1;
  created_at = 3;
  state = s;
  runtime_spec = none;
  code_format = "pickle";
  params_schema = none;
}

abbrev empty : FunctionRegistry backend
empty = record { store = InMemory.init; emitted = [] }

abbrev one : FunctionRegistry backend
one = record {
  store = InMemory.put InMemory.init (full_key "f" 1) (resize registered);
  emitted = [];
}

register_lem_example :
    (v : ℕ) × (x : FunctionRecord) × (full_key "f" 1 ≡ full_key "f" v)
    × ((w : ℕ) (y : FunctionRecord) → laws.lookup InMemory.init "f" w ≡ some y → w < v)
    × (x.code ≡ 1 ∷ [])
    × (x.state ≡ registered)
    × Writes backend laws empty
        (register backend empty "f" "resize" (1 ∷ []) 3 none "pickle" none).0
        "f"
        v
        x
        (entered registered)
        3
unfolding register InMemory.list_versions max_version
register_lem_example =
    register_lem backend laws empty "f" "resize" (1 ∷ []) 3 none "pickle" none
      {key = full_key "f" 1} init-IsIndexed refl

IsValid-one : laws.IsValid one.store
IsValid-one = put-IsIndexed InMemory.init "f" 1 (resize registered) init-IsIndexed

stored_one : laws.lookup one.store "f" 1 ≡ some (resize registered)
unfolding InMemory.put Dict.get Dict.put
stored_one = refl

goes : (transition backend one (full_key "f" 1) cold_start 9).1 ≡ ok (resize cold_start)
unfolding transition InMemory.get InMemory.get_by_alias_version InMemory.fetch InMemory.put Dict.get
    Dict.put is_valid_transition
goes = refl

transition_lem_example :
    (current : FunctionRecord) × (laws.lookup one.store "f" 1 ≡ some current)
    × (is_valid_transition current.state cold_start ≡ true)
    × Writes backend laws one
        (transition backend one (full_key "f" 1) cold_start 9).0
        "f"
        1
        (record current { state = cold_start })
        (entered cold_start)
        9
transition_lem_example =
    transition_lem backend laws one "f" 1 cold_start 9 {x = resize cold_start} IsValid-one goes

-- The last of the changes is refused.
abbrev calls : List (RegistryCall × ℕ)
calls =
    (registers "f" "resize" (1 ∷ []) none "pickle" none, 3)
    ∷ (moves "f" 1 cold_start, 4)
    ∷ (moves "f" 1 completed, 5)
    ∷ []

abbrev schema : List ParamSpec
schema = record { name = "mode"; type = "string"; required = true; default = none } ∷ []

abbrev given : Dict String Json
given = ("mode", string "fast") ∷ []

validate_and_fill_params-Accepts_example :
    All (Accepts given) schema
    × ((k : String) (v : Json)
        → Dict.get given k ≡ some v
        → (contains (names schema) k ≡ true)
          × (Dict.get (("mode", some (string "fast")) ∷ []) k ≡ some (some v)))
unfolding validate_and_fill_params fill unknown sorted_set contains type_matches Dict.get Dict.put
validate_and_fill_params-Accepts_example =
    validate_and_fill_params-Accepts schema given {out = ("mode", some (string "fast")) ∷ []} refl
