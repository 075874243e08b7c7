-- ===== src/Consensus/Sync.antt =====
-- What the sync bridges of axo_endpoint/core/consensus share: the keys of changes, and tombstones.
-- The `json` and `base64` modules are the parameter `WireLib`.
pub mod Functions
pub mod Data
pub mod Buckets
pub mod Leader
pub mod Records
pub mod Wire
pub mod Absorb
pub mod Replication
use activex_endpoint.Prelude.{
  ℕ, String, ◌≡◌, Bool, true, false, Option, none, some, is_empty, string_eq,
}
use activex_endpoint.Prelude.Outcome.{◌>>=◌}
use activex_endpoint.Text.{concat, decimal, to_version, rpartition_colon}
use activex_endpoint.Storage.Key.{StorageKey}
use activex_endpoint.Functions.Params.{Json, null, boolean, object, Fields, close, field, field_of}
use activex_endpoint.Consensus.StateMachine.{Bytes}

-- `json.dumps(v).encode`, `json.loads(b.decode)` with `none` for its two exceptions,
-- `base64.b64encode(b).decode` and `base64.b64decode`.
pub record WireLib : Type 0 where
  pub dumps : Json → Bytes
  pub loads : Bytes → Option Json
  pub b64encode : Bytes → String
  pub b64decode : String → Option Bytes

-- What is written is read back, and no document is empty.
pub record IsFaithful (w : WireLib) : Type 0 where
  pub loads-dumps : (v : Json) → w.loads (w.dumps v) ≡ some v
  pub dumps-nonempty : (v : Json) → is_empty (w.dumps v) ≡ false
  pub b64decode-b64encode : (b : Bytes) → w.b64decode (w.b64encode b) ≡ some b

-- `f"{version}"`
abbrev version_text : Option ℕ → String
version_text none = "None"
version_text (some v) = decimal v

-- `f"{id}:{version}"`
unfoldable pub combined_key : String → Option ℕ → String
combined_key id version = concat id (concat ":" (version_text version))

-- `combined_key.rpartition(":")`, then `int` of the last part; `none` for its exception.
abbrev read_version : String → String → Option (String × ℕ)
read_version id version_str = do v ← to_version version_str; some (id, v)

abbrev split_parts : String → Option (String × String) → Option (String × ℕ)
split_parts k none = read_version "" k
split_parts k (some (id, version_str)) = read_version id version_str

unfoldable pub split_key : String → Option (String × ℕ)
split_key k = split_parts k (rpartition_colon k)

-- `StorageKey(id=id, version=version, alias=id)`
abbrev pub key_of : String → Option ℕ → StorageKey
key_of id version = record { id = id; version = version; alias = some id }

abbrev pub tombstone : Json
tombstone = object (field "__tombstone__" (boolean true) close)

unfoldable pub serialize_tombstone : WireLib → Bytes
serialize_tombstone w = w.dumps tombstone

-- `is True`
abbrev pub is_true : Option Json → Bool
is_true (some (boolean b)) = b
is_true _ = false

-- `none` where the document is no object and has no `get`.
abbrev pub marked : Option Json → Option Bool
marked none = some false
marked (some (object d)) = some (is_true (field_of d "__tombstone__"))
marked (some v) = none

unfoldable pub is_tombstone : WireLib → Bytes → Option Bool
unfolding field_of
is_tombstone w blob = marked (w.loads blob)
