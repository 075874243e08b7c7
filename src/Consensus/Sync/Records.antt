-- ===== src/Consensus/Sync/Records.antt =====
-- Function records and tombstones of registry_sync.py, written out and read back.
use activex_endpoint.Prelude.{
  ℕ, String, ◌≡◌, refl, ap, false, Option, none, some, List, [], ◌∷◌, map, string_eq,
}
use activex_endpoint.Text.{decimal}
use activex_endpoint.Text.Decimal.{to_version-decimal, decimal-NoColon}
use activex_endpoint.Text.Partition.{rpartition_colon-concat}
use activex_endpoint.Functions.Lifecycle.{
  FunctionState, registered, cold_start, running, completed, failed, idle, evicted,
}
use activex_endpoint.Functions.Params.{Json, field_of, ParamSpec}
use activex_endpoint.Functions.Registry.{RuntimeSpec, FunctionRecord}
use activex_endpoint.Functions.Codec.{
  or_null, params_schema_to_list, parse_params_schema, spec_to_dict,
}
use activex_endpoint.Functions.Codec.RoundTrip.{
  canonical, canonical-canonical, parse_items-specs_to_items, spec_from_dict-spec_to_dict,
}
use activex_endpoint.Consensus.Sync.{
  WireLib, IsFaithful, tombstone, combined_key, split_key, serialize_tombstone, is_tombstone,
}
use activex_endpoint.Consensus.Sync.Functions.{
  state_value, state_of, function_document, serialize_function_record, read_spec, specs_or_none,
  record_from_dict, deserialize_function_record, read_change,
}

abbrev pub schema_seen : Option (List ParamSpec) → Option (List ParamSpec)
schema_seen none = none
schema_seen (some specs) = specs_or_none (map canonical specs)

-- A record as a follower gets it: an empty schema is none, and so is a null default.
unfoldable pub seen : FunctionRecord → FunctionRecord
seen r = record r { params_schema = schema_seen r.params_schema }

schema_seen_twice : (o : Option (List ParamSpec)) → schema_seen (schema_seen o) ≡ schema_seen o
schema_seen_twice none = refl
schema_seen_twice (some []) = refl
schema_seen_twice (some (p ∷ ps)) = rw (canonical-canonical p, map-canonical ps)
  where
    map-canonical : (qs : List ParamSpec) → map canonical (map canonical qs) ≡ map canonical qs
    map-canonical [] = refl
    map-canonical (q ∷ qs) = rw (canonical-canonical q, map-canonical qs)

pub seen-seen : (r : FunctionRecord) → seen (seen r) ≡ seen r
unfolding seen
seen-seen r = ap (λ s. record r { params_schema = s }) (schema_seen_twice r.params_schema)

state_of-state_value : (s : FunctionState) → state_of (state_value s) ≡ some s
state_of-state_value registered = refl
state_of-state_value cold_start = refl
state_of-state_value running = refl
state_of-state_value completed = refl
state_of-state_value failed = refl
state_of-state_value idle = refl
state_of-state_value evicted = refl

schema_read :
    (o : Option (List ParamSpec))
    → (specs : List ParamSpec) × (parse_params_schema (some (params_schema_to_list o)) ≡ some specs)
      × (specs_or_none specs ≡ schema_seen o)
unfolding parse_params_schema params_schema_to_list
schema_read none = ([], refl, refl)
schema_read (some specs) = (map canonical specs, parse_items-specs_to_items specs, refl)

spec_read :
    (o : Option RuntimeSpec)
    → read_spec (some (or_null (λ s. Json.object (spec_to_dict s)) o)) ≡ some o
unfolding read_spec spec_to_dict
spec_read none = refl
spec_read (some s) = rw (spec_from_dict-spec_to_dict s)

module _ (w : WireLib) (f : IsFaithful w) where
  -- A record comes back from its blob as it was, but for an empty schema or a null default, which
  -- come back as none.
  pub deserialize-serialize_function_record :
      (r : FunctionRecord)
      → deserialize_function_record w (serialize_function_record w r) ≡ some (seen r)
  unfolding deserialize_function_record serialize_function_record record_from_dict function_document
      field_of seen
  deserialize-serialize_function_record r =
      let (specs, parsed, same) = schema_read r.params_schema in
      rw (
        f.loads-dumps (function_document w r),
        f.b64decode-b64encode r.code,
        to_version-decimal r.version,
        to_version-decimal r.created_at,
        state_of-state_value r.state,
        spec_read r.runtime_spec,
        parsed,
        same,
      )

  pub is_tombstone-record :
      (r : FunctionRecord) → is_tombstone w (serialize_function_record w r) ≡ some false
  unfolding is_tombstone serialize_function_record function_document field_of
  is_tombstone-record r = rw (f.loads-dumps (function_document w r))

  pub read_change-record :
      (r : FunctionRecord) → read_change w (serialize_function_record w r) ≡ some (some (seen r))
  unfolding read_change
  read_change-record r = rw (is_tombstone-record r, deserialize-serialize_function_record r)

  pub read_change-tombstone : read_change w (serialize_tombstone w) ≡ some none
  unfolding read_change is_tombstone serialize_tombstone field_of
  read_change-tombstone = rw (f.loads-dumps tombstone)

pub split_key-combined_key :
    (n : String) (v : ℕ) → split_key (combined_key n (some v)) ≡ some (n, v)
unfolding split_key combined_key
split_key-combined_key n v =
    rw (rpartition_colon-concat n (decimal v) (decimal-NoColon v), to_version-decimal v)
