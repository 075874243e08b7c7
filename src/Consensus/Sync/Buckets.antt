-- ===== src/Consensus/Sync/Buckets.antt =====
-- axo_endpoint/core/consensus/bucket_sync.py.
use activex_endpoint.Prelude.{ℕ, String, Bool, true, false, Option, none, some, [], ◌∷◌, string_eq}
use activex_endpoint.Prelude.Dict.{Dict}
use activex_endpoint.Prelude.Outcome.{◌>>=◌}
use activex_endpoint.Storage.Backend.{StorageBackend}
use activex_endpoint.Functions.Params.{Json, string, object, Fields, close, field, field_of}
use activex_endpoint.Functions.Codec.{to_string, to_nat, required, number_of}
use activex_endpoint.Data.Buckets.{DataBucket, BucketRegistry, bucket_key, get}
use activex_endpoint.Consensus.StateMachine.{Bytes}
use activex_endpoint.Consensus.DirtyTracker.{DirtyTracker, mark_bucket_dirty}
use activex_endpoint.Consensus.Sync.{WireLib}
use activex_endpoint.Consensus.Sync.Data.{all_known, when}

-- `dataclasses.asdict(bucket)`
unfoldable pub bucket_fields : DataBucket → Fields
bucket_fields r = field "name" (string r.name) (
    field "quota_bytes" (number_of r.quota_bytes)
      (field "created_at" (number_of r.created_at) close))

unfoldable pub serialize_data_bucket : WireLib → DataBucket → Bytes
unfolding bucket_fields
serialize_data_bucket w r = w.dumps (object (bucket_fields r))

-- `DataBucket(**d)`
unfoldable pub bucket_from_fields : Fields → Option DataBucket
unfolding field_of all_known
bucket_from_fields d = when (all_known ("name" ∷ "quota_bytes" ∷ "created_at" ∷ []) d) (do
  name ← required to_string d "name"
  quota_bytes ← required to_nat d "quota_bytes"
  created_at ← required to_nat d "created_at"
  some (record { name = name; quota_bytes = quota_bytes; created_at = created_at }))

abbrev bucket_from_json : Json → Option DataBucket
bucket_from_json (object d) = bucket_from_fields d
bucket_from_json v = none

unfoldable pub deserialize_data_bucket : WireLib → Bytes → Option DataBucket
unfolding bucket_from_fields
deserialize_data_bucket w blob = do v ← w.loads blob; bucket_from_json v

module _ (c : StorageBackend DataBucket) (w : WireLib) where
  unfoldable pub on_bucket_event : BucketRegistry c → DirtyTracker → String → ℕ → DirtyTracker
  unfolding serialize_data_bucket get
  on_bucket_event r t name now = elim (get c r name) [
    | none ↦ t
    | some bucket ↦ mark_bucket_dirty t name (serialize_data_bucket w bucket) now
  ]

  -- The catalog that the loop leaves, and whether it went through.
  unfoldable pub apply_bucket_incoming : c.Store → Dict String Bytes → c.Store × Bool
  unfolding deserialize_data_bucket
  apply_bucket_incoming s [] = (s, true)
  apply_bucket_incoming s ((name, blob) ∷ changes) = elim (deserialize_data_bucket w blob) [
    | none ↦ (s, false)
    | some bucket ↦ apply_bucket_incoming (c.put s (bucket_key name) bucket).0 changes
  ]
