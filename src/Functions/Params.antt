-- ===== src/Functions/Params.antt =====
-- axo_endpoint/core/functions/params_validation.py, with `ParamSpec` of
-- axo_shared/axo_shared/functions/params_schema.py. Numbers of a JSON value are opaque texts.
pub mod Validation
use activex_endpoint.Prelude.{
  String, Bool, true, false, not, ◌&&◌, Option, none, some, List, [], ◌∷◌, map, filter, is_empty,
  if◌then◌else◌, ◌==◌, string_eq,
}
use activex_endpoint.Prelude.Dict
use activex_endpoint.Prelude.Dict.{Dict, keys}
use activex_endpoint.Prelude.Sets.{contains}
use activex_endpoint.Prelude.Order.{sorted_set, string_ord}
use activex_endpoint.Prelude.Outcome.{Result, ok, err}

-- The values of a decoded JSON document.
mutual
  pub data Json : Type 0 where
    null : Json
    boolean : Bool → Json
    number string : String → Json
    array : Items → Json
    object : Fields → Json

  pub data Items : Type 0 where
    end : Items
    item : Json → Items → Items

  pub data Fields : Type 0 where
    close : Fields
    field : String → Json → Fields → Fields

pub record ParamSpec : Type 0 where
  pub name : String
  pub type : String
  pub required : Bool
  pub default : Option Json

-- `value.get(key)` of a decoded object, whose names are distinct.
unfoldable pub field_of : Fields → String → Option Json
field_of close k = none
field_of (field j v fs) k = if j == k then some v else field_of fs k

is_string : Option Json → Bool
is_string (some (string s)) = true
is_string _ = false

-- The two tests on a data reference.
is_data_ref : Json → Bool
unfolding field_of is_string
is_data_ref (object fs) = is_string (field_of fs "kind") && is_string (field_of fs "location")
is_data_ref v = false

is_number : Json → Bool
is_number (number n) = true
is_number v = false

is_boolean : Json → Bool
is_boolean (boolean b) = true
is_boolean v = false

unfoldable pub type_matches : Json → String → Bool
unfolding is_string is_number is_boolean is_data_ref
type_matches value param_type =
    if param_type == "string"
    then is_string (some value)
    else if param_type == "number"
    then is_number value
    else if param_type == "boolean"
    then is_boolean value
    else if param_type == "json"
    then true
    else if param_type == "data_ref"
    then is_data_ref value
    else false

pub data InvalidField : Type 0 where
  unknown_fields : List String → InvalidField
  missing_field : String → InvalidField
  wrong_type : String → String → InvalidField

is_none : Option Json → Bool
is_none none = true
is_none (some v) = false

-- The loop over the schema. A missing optional field is filled with its default, which may be None.
unfoldable pub fill :
    List ParamSpec
    → Dict String Json
    → Dict String (Option Json)
    → Result InvalidField (Dict String (Option Json))
unfolding is_none
fill [] params filled = ok filled
fill (spec ∷ schema) params filled =
    let defaulted = fill schema params (Dict.put filled spec.name spec.default) in
    let given = λ (v : Json). fill schema params (Dict.put filled spec.name (some v)) in
    elim (Dict.get params spec.name) [
      | none ↦
          if spec.required && is_none spec.default then err (missing_field spec.name) else defaulted
      | some value ↦
          if type_matches value spec.type then given value else err (wrong_type spec.name spec.type)
    ]

-- `sorted(unknown)`
unfoldable pub unknown : List ParamSpec → Dict String Json → List String
unknown schema params =
    sorted_set
      (filter (λ k. not (contains (map (λ (s : ParamSpec). s.name) schema) k)) (keys params))

unfoldable pub validate_and_fill_params :
    List ParamSpec → Dict String Json → Result InvalidField (Dict String (Option Json))
unfolding fill unknown
validate_and_fill_params schema params =
    if is_empty (unknown schema params)
    then fill schema params []
    else err (unknown_fields (unknown schema params))
