-- ===== src/Data/Results/RoundTrip.antt =====
-- A result of envelope.py, written out and read back.
use activex_endpoint.Prelude.{String, ◌≡◌, refl, Option, none, some, [], ◌∷◌, string_eq, All}
use activex_endpoint.Prelude.Dict.{Dict}
use activex_endpoint.Text.Decimal.{NoColon}
use activex_endpoint.Functions.Params.{field_of, number}
use activex_endpoint.Functions.Codec.{to_optional, or_null}
use activex_endpoint.Functions.Codec.RoundTrip.{to_strings-string_items}
use activex_endpoint.Consensus.Sync.{WireLib, IsFaithful}
use activex_endpoint.Storage.Key.{StorageKey}
use activex_endpoint.Storage.Key.RoundTrip.{IsPlainAlias, from_str-to_str}
use activex_endpoint.Data.Results.{
  FunctionResult, to_number, refs_to_fields, refs_from_fields, result_to_document,
  result_from_document, encode_function_result, decode_function_result,
}

-- The references are keys that come back from their strings.
abbrev pub ArePlain : Dict String StorageKey → Type 0
ArePlain refs =
    All (λ (r : String × StorageKey). NoColon r.1.id × IsPlainAlias r.1.version r.1.alias) refs

refs_from_fields-refs_to_fields :
    (refs : Dict String StorageKey)
    → ArePlain refs
    → refs_from_fields (refs_to_fields refs) ≡ some refs
unfolding refs_from_fields refs_to_fields
refs_from_fields-refs_to_fields [] h = refl
refs_from_fields-refs_to_fields ((name, k) ∷ refs) h =
    rw (from_str-to_str k h.0.0 h.0.1, refs_from_fields-refs_to_fields refs h.1) refl

duration_read : (o : Option String) → to_optional to_number (or_null number o) ≡ some o
duration_read none = refl
duration_read (some n) = refl

pub decode-encode_function_result :
    (w : WireLib) (r : FunctionResult)
    → IsFaithful w
    → ArePlain r.refs
    → decode_function_result w (encode_function_result w r) ≡ some r
unfolding decode_function_result encode_function_result result_from_document result_to_document
    field_of
decode-encode_function_result w r f plain =
    rw
      (
        f.loads-dumps (result_to_document r),
        refs_from_fields-refs_to_fields r.refs plain,
        duration_read r.duration_ms,
        to_strings-string_items r.warnings,
      )
      refl
