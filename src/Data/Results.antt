-- ===== src/Data/Results.antt =====
-- The results of axo_endpoint/core/results/envelope.py, and their codec. `none` stands for an
-- exception, for a value whose type the field does not admit, which Python would keep, and for a
-- reference of a negative version. A duration is the text of its number.
pub mod RoundTrip
use activex_endpoint.Prelude.{String, Bool, ◌≡◌, Option, none, some, List, [], ◌∷◌, string_eq}
use activex_endpoint.Prelude.Dict.{Dict}
use activex_endpoint.Prelude.Outcome.{◌>>=◌}
use activex_endpoint.Functions.Params.{
  Json, null, boolean, number, string, array, object, Items, end, Fields, close, field, field_of,
}
use activex_endpoint.Functions.Codec.{
  to_string, to_bool, to_optional, to_string_list, required, get_or, or_null, string_items,
}
use activex_endpoint.Consensus.StateMachine.{Bytes}
use activex_endpoint.Consensus.Sync.{WireLib}
use activex_endpoint.Storage.Key.{StorageKey, Parsed, parsed, to_str, from_str}

pub record FunctionResult : Type 0 where
  pub job_id : String
  pub succeeded : Bool
  pub output : Fields
  pub refs : Dict String StorageKey
  pub error : String
  pub duration_ms : Option String
  pub warnings : List String

unfoldable pub refs_to_fields : Dict String StorageKey → Fields
unfolding to_str
refs_to_fields [] = close
refs_to_fields ((k, v) ∷ refs) = field k (string (to_str v)) (refs_to_fields refs)

unfoldable pub result_to_document : FunctionResult → Json
unfolding refs_to_fields
result_to_document r = object (
    field "job_id" (string r.job_id) (
      field "ok" (boolean r.succeeded) (
        field "output" (object r.output) (
          field "refs" (object (refs_to_fields r.refs)) (
            field "error" (string r.error) (
              field "duration_ms" (or_null number r.duration_ms)
                (field "warnings" (array (string_items r.warnings)) close)))))))

abbrev to_number : Json → Option String
to_number (number n) = some n
to_number v = none

abbrev pub to_object : Json → Option Fields
to_object (object fs) = some fs
to_object v = none

abbrev key_or_none : Parsed → Option StorageKey
key_or_none (parsed k) = some k
key_or_none p = none

unfoldable pub refs_from_fields : Fields → Option (Dict String StorageKey)
unfolding from_str
refs_from_fields close = some []
refs_from_fields (field k v fs) = do
  s ← to_string v
  key ← key_or_none (from_str s)
  refs ← refs_from_fields fs
  some ((k, key) ∷ refs)

unfoldable pub result_from_document : Fields → Option FunctionResult
unfolding refs_from_fields field_of
result_from_document d = do
  job_id ← required to_string d "job_id"
  succeeded ← required to_bool d "ok"
  output ← get_or to_object d "output" close
  fields ← get_or to_object d "refs" close
  refs ← refs_from_fields fields
  error ← get_or to_string d "error" ""
  duration_ms ← get_or (to_optional to_number) d "duration_ms" none
  warnings ← get_or to_string_list d "warnings" []
  some (record {
    job_id = job_id;
    succeeded = succeeded;
    output = output;
    refs = refs;
    error = error;
    duration_ms = duration_ms;
    warnings = warnings;
  })

unfoldable pub encode_function_result : WireLib → FunctionResult → Bytes
unfolding result_to_document
encode_function_result w r = w.dumps (result_to_document r)

unfoldable pub decode_function_result : WireLib → Bytes → Option FunctionResult
unfolding result_from_document
decode_function_result w payload = do v ← w.loads payload; d ← to_object v; result_from_document d
