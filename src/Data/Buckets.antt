-- ===== src/Data/Buckets.antt =====
-- axo_endpoint/core/data/bucket_registry.py, bucket_models.py, and the quota check of
-- axo_endpoint/service/handlers/data_register.py. The event bus is the list of emitted events.
pub mod Quota
use activex_endpoint.Prelude.{
  ℕ, ◌+◌, String, Bool, true, false, Option, none, some, List, [], ◌∷◌, ◌++◌, filter, ltb, nat_beq,
  if◌then◌else◌, ◌&&◌, ◌||◌, not, ◌==◌, string_eq,
}
use Prim.Native.Char.{Char, code}
use Prim.Native.String
use activex_endpoint.Prelude.Outcome.{Result, ok, err}
use activex_endpoint.Storage.Key.{StorageKey}
use activex_endpoint.Storage.Backend.{StorageBackend}
use activex_endpoint.Data.Models.{DataRecord}
use activex_endpoint.Text.{concat}

pub record DataBucket : Type 0 where
  pub name : String
  pub quota_bytes : ℕ
  pub created_at : ℕ

-- `StorageKey(id=name)`
abbrev pub bucket_key : String → StorageKey
bucket_key name = record { id = name; version = none; alias = none }

module _ (c : StorageBackend DataBucket) where
  -- A BUCKET_REGISTERED event is the bucket that it tells of.
  pub record BucketRegistry : Type 0 where
    pub catalog : c.Store
    pub emitted : List DataBucket

  pub data BucketError : Type 0 where
    catalog_error : c.Error → BucketError
    already_exists : String → BucketError

  unfoldable pub get : BucketRegistry → String → Option DataBucket
  get r name = elim (c.get r.catalog (bucket_key name)) [ err e ↦ none | ok found ↦ found ]

  unfoldable pub after_put :
      BucketRegistry
      → DataBucket
      → c.Store × Result c.Error Unit
      → BucketRegistry × Result BucketError DataBucket
  after_put r bucket (s, err e) = (record r { catalog = s }, err (catalog_error e))
  after_put r bucket (s, ok _) =
      (record { catalog = s; emitted = r.emitted ++ bucket ∷ [] }, ok bucket)

  unfoldable pub register :
      BucketRegistry → String → ℕ → ℕ → BucketRegistry × Result BucketError DataBucket
  unfolding get after_put
  register r name quota_bytes now = elim (get r name) [
    | some existing ↦ (r, err (already_exists name))
    | none ↦
        let bucket : DataBucket = record {
          name = name;
          quota_bytes = quota_bytes;
          created_at = now;
        } in
        after_put r bucket (c.put r.catalog (bucket_key name) bucket)
  ]

-- `name.split("/", 1)[0]`
unfoldable pub bucket_of : String → String
bucket_of String.[] = String.[]
bucket_of (String.◌∷◌ x s) =
    let rest = bucket_of s in if nat_beq (code x) b'/' then String.[] else String.◌∷◌ x rest

-- `s.startswith(prefix)`
unfoldable pub starts_with : String → String → Bool
starts_with String.[] s = true
starts_with (String.◌∷◌ x prefix) String.[] = false
starts_with (String.◌∷◌ x prefix) (String.◌∷◌ y s) =
    let rest = starts_with prefix s in if nat_beq (code x) (code y) then rest else false

-- The bytes that are registered under the prefix.
unfoldable pub used_bytes : String → List DataRecord → ℕ
used_bytes prefix [] = 0
used_bytes prefix (r ∷ rs) =
    let rest = used_bytes prefix rs in
    if starts_with prefix r.name then r.total_size + rest else rest

pub data QuotaCheck : Type 0 where
  accepted : QuotaCheck
  bucket_not_found : String → QuotaCheck
  quota_exceeded : (used additional quota : ℕ) → QuotaCheck

-- `_check_bucket_quota`, on what the bucket registry and the data registry hold.
unfoldable pub check_bucket_quota :
    (String → Option DataBucket) → List DataRecord → String → ℕ → QuotaCheck
unfolding bucket_of used_bytes
check_bucket_quota buckets records name total_size =
    let bucket_name = bucket_of name in
    let used = used_bytes (concat bucket_name "/") records in
    elim (buckets bucket_name) [
      | none ↦ bucket_not_found bucket_name
      | some bucket ↦
          if ltb bucket.quota_bytes (used + total_size)
          then quota_exceeded used total_size bucket.quota_bytes
          else accepted
    ]

-- `"/" in s`
unfoldable pub has_slash : String → Bool
has_slash String.[] = false
has_slash (String.◌∷◌ x s) = nat_beq (code x) b'/' || has_slash s

abbrev pub is_accepted : QuotaCheck → Bool
is_accepted accepted = true
is_accepted refused = false

-- Whether `DataRegisterHandler.handle`, given a bucket registry, lets a request with all fields
-- through to the data registry.
unfoldable pub may_register : (String → Option DataBucket) → List DataRecord → DataRecord → Bool
unfolding has_slash check_bucket_quota
may_register buckets records r =
    not (has_slash r.name) || is_accepted (check_bucket_quota buckets records r.name r.total_size)

abbrev replaces : DataRecord → DataRecord → Bool
replaces r q = q.name == r.name && nat_beq q.version r.version

-- The records after `handle`, where `is_written` tells whether the registry's catalog took the record.
-- A record takes the place of one with its name and version.
unfoldable pub handle_register :
    (String → Option DataBucket) → List DataRecord → DataRecord → Bool → List DataRecord
unfolding may_register
handle_register buckets records r is_written =
    if may_register buckets records r && is_written
    then r ∷ filter (λ q. not (replaces r q)) records
    else records
