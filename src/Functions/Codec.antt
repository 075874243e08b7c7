-- ===== src/Functions/Codec.antt =====
-- The dict codecs of axo_shared/axo_shared/functions/params_schema.py and
-- axo_shared/axo_shared/runtime/spec.py. `none` stands for an exception, and for a value whose type
-- the field does not admit, which Python would keep. A float of the spec is a number of ticks.
pub mod RoundTrip
use activex_endpoint.Prelude.{
  ℕ, String, Bool, true, false, Option, none, some, List, [], ◌∷◌, map, string_eq,
}
use activex_endpoint.Prelude.Dict
use activex_endpoint.Prelude.Dict.{Dict}
use activex_endpoint.Prelude.Outcome.{◌>>=◌}
use activex_endpoint.Text.{decimal, to_version}
use activex_endpoint.Functions.Params.{
  Json, null, boolean, number, string, array, object, Items, end, item, Fields, close, field,
  field_of, ParamSpec,
}
use activex_endpoint.Functions.Registry.{RuntimeSpec}

-- A value of the decoded document, read at the type of its field.
abbrev pub to_string : Json → Option String
to_string (string s) = some s
to_string _ = none

abbrev pub to_bool : Json → Option Bool
to_bool (boolean b) = some b
to_bool _ = none

abbrev pub to_nat : Json → Option ℕ
to_nat (number n) = to_version n
to_nat _ = none

abbrev pub to_optional {ℓ} : {A : Type ℓ} → (Json → Option A) → Json → Option (Option A)
to_optional read null = some none
to_optional read v = do a ← read v; some (some a)

abbrev to_strings : Items → Option (List String)
to_strings end = some []
to_strings (item v vs) = do s ← to_string v; ss ← to_strings vs; some (s ∷ ss)

abbrev pub to_string_list : Json → Option (List String)
to_string_list (array vs) = to_strings vs
to_string_list _ = none

abbrev to_entries : Fields → Option (Dict String String)
to_entries close = some []
to_entries (field k v fs) = do s ← to_string v; d ← to_entries fs; some ((k, s) ∷ d)

abbrev pub to_string_dict : Json → Option (Dict String String)
to_string_dict (object fs) = to_entries fs
to_string_dict _ = none

-- `d[key]`, and `d.get(key, default)`.
abbrev pub required {ℓ} : {A : Type ℓ} → (Json → Option A) → Fields → String → Option A
required read d key = do v ← field_of d key; read v

abbrev at_or {ℓ} : {A : Type ℓ} → (Json → Option A) → A → Option Json → Option A
at_or read default none = some default
at_or read default (some v) = read v

abbrev pub get_or {ℓ} : {A : Type ℓ} → (Json → Option A) → Fields → String → A → Option A
get_or read d key default = at_or read default (field_of d key)

abbrev pub number_of : ℕ → Json
number_of n = number (decimal n)

abbrev pub or_null {ℓ} : {A : Type ℓ} → (A → Json) → Option A → Json
or_null write none = null
or_null write (some a) = write a

abbrev pub string_items : List String → Items
string_items [] = end
string_items (s ∷ ss) = item (string s) (string_items ss)

abbrev pub string_fields : Dict String String → Fields
string_fields [] = close
string_fields ((k, s) ∷ d) = field k (string s) (string_fields d)

-- `ParamSpec.to_dict`, as the fields of the object.
unfoldable pub param_to_dict : ParamSpec → Fields
param_to_dict p = field "name" (string p.name) (
    field "type" (string p.type)
      (field "required" (boolean p.required) (field "default" (or_null (λ v. v) p.default) close)))

-- The value of `d.get("default")`: null is Python's None.
abbrev not_null : Option Json → Option Json
not_null (some null) = none
not_null o = o

-- `ParamSpec.from_dict`
unfoldable pub param_from_dict : Fields → Option ParamSpec
param_from_dict d = do
  name ← required to_string d "name"
  type ← get_or to_string d "type" "string"
  req ← get_or to_bool d "required" true
  some (record {
    name = name;
    type = type;
    required = req;
    default = not_null (field_of d "default");
  })

unfoldable pub specs_to_items : List ParamSpec → Items
unfolding param_to_dict
specs_to_items [] = end
specs_to_items (p ∷ ps) = item (object (param_to_dict p)) (specs_to_items ps)

unfoldable pub params_schema_to_list : Option (List ParamSpec) → Json
unfolding specs_to_items
params_schema_to_list none = array end
params_schema_to_list (some specs) = array (specs_to_items specs)

unfoldable pub parse_items : Items → Option (List ParamSpec)
unfolding param_from_dict
parse_items end = some []
parse_items (item (object d) vs) = do p ← param_from_dict d; ps ← parse_items vs; some (p ∷ ps)
parse_items (item v vs) = none

-- `parse_params_schema`, with `none` for an absent schema.
unfoldable pub parse_params_schema : Option Json → Option (List ParamSpec)
unfolding parse_items
parse_params_schema none = some []
parse_params_schema (some null) = some []
parse_params_schema (some (array vs)) = parse_items vs
parse_params_schema (some v) = none

-- `RuntimeSpec.to_dict`
unfoldable pub spec_to_dict : RuntimeSpec → Fields
spec_to_dict r = field "type" (string r.type) (
    field "python_version" (string r.python_version) (
      field "requirements" (array (string_items r.requirements)) (
        field "image" (or_null string r.image) (
          field "env_vars" (object (string_fields r.env_vars)) (
            field "idle_ttl_seconds" (number_of r.idle_ttl_seconds) (
              field "max_invocations" (number_of r.max_invocations) (
                field "memory_limit_bytes" (or_null number_of r.memory_limit_bytes) (
                  field "cpu_limit" (or_null number_of r.cpu_limit) (
                    field "max_concurrency" (number_of r.max_concurrency) (
                      field "max_duration_seconds" (number_of r.max_duration_seconds)
                        (field "max_retries" (number_of r.max_retries) close)))))))))))

-- `RuntimeSpec.from_dict`
unfoldable pub spec_from_dict : Fields → Option RuntimeSpec
spec_from_dict d = do
  memory_limit_bytes ← get_or (to_optional to_nat) d "memory_limit_bytes" none
  cpu_limit ← get_or (to_optional to_nat) d "cpu_limit" none
  type ← get_or to_string d "type" "process"
  python_version ← get_or to_string d "python_version" "3.11"
  requirements ← get_or to_string_list d "requirements" []
  image ← get_or (to_optional to_string) d "image" none
  env_vars ← get_or to_string_dict d "env_vars" []
  idle_ttl_seconds ← get_or to_nat d "idle_ttl_seconds" 300
  max_invocations ← get_or to_nat d "max_invocations" 0
  max_concurrency ← get_or to_nat d "max_concurrency" 1
  max_duration_seconds ← get_or to_nat d "max_duration_seconds" 0
  max_retries ← get_or to_nat d "max_retries" 3
  some (record {
    type = type;
    python_version = python_version;
    requirements = requirements;
    image = image;
    env_vars = env_vars;
    idle_ttl_seconds = idle_ttl_seconds;
    max_invocations = max_invocations;
    memory_limit_bytes = memory_limit_bytes;
    cpu_limit = cpu_limit;
    max_concurrency = max_concurrency;
    max_duration_seconds = max_duration_seconds;
    max_retries = max_retries;
  })
