-- ===== src/Consensus/Sync/Data.antt =====
-- axo_endpoint/core/consensus/data_sync.py. A field that `DataRecord` does not have is a TypeError.
use activex_endpoint.Prelude.{
  ℕ, String, Bool, true, false, ◌&&◌, Option, none, some, List, [], ◌∷◌, string_eq,
}
use activex_endpoint.Prelude.Dict.{Dict}
use activex_endpoint.Prelude.Sets.{contains}
use activex_endpoint.Prelude.Outcome.{ok, err, ◌>>=◌}
use activex_endpoint.Storage.Backend.{StorageBackend}
use activex_endpoint.Functions.Params.{Json, string, object, Fields, close, field, field_of}
use activex_endpoint.Functions.Codec.{
  to_string, to_nat, to_optional, required, get_or, number_of, or_null,
}
use activex_endpoint.Data.Models.{DataRecord, BlobBackend, HashLib}
use activex_endpoint.Data.Registry.{DataRegistry, delete}
use activex_endpoint.Consensus.StateMachine.{Bytes}
use activex_endpoint.Consensus.DirtyTracker.{DirtyTracker, mark_data_dirty}
use activex_endpoint.Consensus.Sync.{
  WireLib, combined_key, split_key, key_of, serialize_tombstone, is_tombstone,
}

-- `dataclasses.asdict(record)`
unfoldable pub data_fields : DataRecord → Fields
data_fields r = field "name" (string r.name) (
    field "version" (number_of r.version) (
      field "alias" (string r.alias) (
        field "format" (string r.format) (
          field "kind" (string r.kind) (
            field "total_size" (number_of r.total_size) (
              field "chunk_bytes" (number_of r.chunk_bytes) (
                field "total_chunks" (number_of r.total_chunks) (
                  field "created_at" (number_of r.created_at) (
                    field "declared_hash" (or_null (λ s. string s) r.declared_hash)
                      (field "content_hash_algo" (string r.content_hash_algo) close))))))))))

unfoldable pub serialize_data_record : WireLib → DataRecord → Bytes
unfolding data_fields
serialize_data_record w r = w.dumps (object (data_fields r))

-- Every name of the object is one of the names.
unfoldable pub all_known : List String → Fields → Bool
unfolding contains
all_known names close = true
all_known names (field k v fs) = contains names k && all_known names fs

abbrev data_names : List String
data_names =
    "name" ∷ "version" ∷ "alias" ∷ "format" ∷ "kind" ∷ "total_size" ∷ "chunk_bytes" ∷ "total_chunks"
    ∷ "created_at" ∷ "declared_hash" ∷ "content_hash_algo" ∷ []

abbrev pub when {ℓ} : {A : Type ℓ} → Bool → Option A → Option A
when true o = o
when false o = none

-- `DataRecord(**d)`
unfoldable pub data_from_fields : Fields → Option DataRecord
unfolding field_of all_known
data_from_fields d = when (all_known data_names d) (do
  name ← required to_string d "name"
  version ← required to_nat d "version"
  alias ← required to_string d "alias"
  format ← required to_string d "format"
  kind ← required to_string d "kind"
  total_size ← required to_nat d "total_size"
  chunk_bytes ← required to_nat d "chunk_bytes"
  total_chunks ← required to_nat d "total_chunks"
  created_at ← required to_nat d "created_at"
  declared_hash ← get_or (to_optional to_string) d "declared_hash" none
  content_hash_algo ← get_or to_string d "content_hash_algo" "sha256"
  some (record {
    name = name;
    version = version;
    alias = alias;
    format = format;
    kind = kind;
    total_size = total_size;
    chunk_bytes = chunk_bytes;
    total_chunks = total_chunks;
    created_at = created_at;
    declared_hash = declared_hash;
    content_hash_algo = content_hash_algo;
  }))

abbrev data_from_json : Json → Option DataRecord
data_from_json (object d) = data_from_fields d
data_from_json v = none

unfoldable pub deserialize_data_record : WireLib → Bytes → Option DataRecord
unfolding data_from_fields
deserialize_data_record w blob = do v ← w.loads blob; data_from_json v

-- One change as `apply_incoming` reads it: `none` for an exception, `some none` for a tombstone.
abbrev read_unless : WireLib → Bytes → Bool → Option (Option DataRecord)
read_unless w blob true = some none
read_unless w blob false = do r ← deserialize_data_record w blob; some (some r)

unfoldable pub read_data_change : WireLib → Bytes → Option (Option DataRecord)
unfolding is_tombstone deserialize_data_record
read_data_change w blob = do dead ← is_tombstone w blob; read_unless w blob dead

module _ (c : StorageBackend DataRecord) (b : BlobBackend) (h : HashLib) (w : WireLib) where
  unfoldable pub on_data_event : DataRegistry c b h → DirtyTracker → String → ℕ → ℕ → DirtyTracker
  unfolding serialize_data_record
  on_data_event r t data_id version now = elim (c.get r.catalog (key_of data_id (some version))) [
    | err e ↦ t
    | ok none ↦ t
    | ok (some current) ↦
        mark_data_dirty t (combined_key data_id (some version)) (serialize_data_record w current)
          now
  ]

  unfoldable pub on_data_deleted : DirtyTracker → String → ℕ → ℕ → DirtyTracker
  on_data_deleted t data_id version now =
      mark_data_dirty t (combined_key data_id (some version)) (serialize_tombstone w) now

  -- A tombstone deletes through the registry, a record goes to the catalog.
  unfoldable pub apply_data_change :
      DataRegistry c b h → String → ℕ → Option DataRecord → ℕ → DataRegistry c b h
  apply_data_change r name version none now = (delete c b h r name version now).0
  apply_data_change r name version (some rec) now = record r {
    catalog = (c.put r.catalog (key_of name (some version)) rec).0;
  }

  -- The registry that the loop leaves, and whether it went through.
  unfoldable pub apply_data_incoming :
      DataRegistry c b h → Dict String Bytes → ℕ → DataRegistry c b h × Bool
  unfolding apply_data_change
  apply_data_incoming r [] now = (r, true)
  apply_data_incoming r ((k, blob) ∷ changes) now = elim (split_key k) [
    | none ↦ (r, false)
    | some (name, version) ↦ elim (read_data_change w blob) [
      | none ↦ (r, false)
      | some rec ↦ apply_data_incoming (apply_data_change r name version rec now) changes now
    ]
  ]
