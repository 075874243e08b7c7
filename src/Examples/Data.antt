-- ===== src/Examples/Data.antt =====
-- The theorems about registered data and storage keys, at concrete inputs.
use activex_endpoint.Prelude.{
  ℕ, ◌≤◌, String, Bool, List, ◌≡◌, refl, ◌↔◌, true, Option, none, some, [], ◌∷◌, if◌then◌else◌,
  pair_beq, nat_eq, string_eq, pair_eq, arith,
}
use activex_endpoint.Prelude.Dict
use activex_endpoint.Prelude.Dict.{Dict}
use activex_endpoint.Prelude.Sets.{contains}
use activex_endpoint.Prelude.Outcome.{ok}
use activex_endpoint.Text.{concat}
use activex_endpoint.Text.Decimal.{NoColon}
use activex_endpoint.Storage.Key.{StorageKey, parsed, to_str, from_str}
use activex_endpoint.Storage.Key.RoundTrip.{from_str-to_str}
use activex_endpoint.Storage.InMemory.{found}
use activex_endpoint.Storage.InMemory
use activex_endpoint.Storage.InMemory.Laws.{full_key, init-IsIndexed, get-put_full_key}
use activex_endpoint.Storage.Backend.FromMemory.{in_memory}
use activex_endpoint.Data.Chunking.{total_chunks_for, ceil_div}
use activex_endpoint.Data.Chunking.Sizes.{size_from, expected_chunk_len-total}
use activex_endpoint.Data.Models.{DataRecord, BlobBackend, HashLib, Bytes}
use activex_endpoint.Data.Registry.{DataRegistry, register, store_chunk}
use activex_endpoint.Data.Registry.Completion.{signals}
use activex_endpoint.Data.Registry.Runs.{start, next, registers, stores, uploads_signalled_once}
use activex_endpoint.Data.Buckets.{DataBucket, starts_with, handle_register}
use activex_endpoint.Data.Buckets.Quota.{is_in, total_in, same_text, handle_all}

resize-NoColon : NoColon "resize"
resize-NoColon = ground arith

latest-NoColon : NoColon "latest"
latest-NoColon = ground arith

from_str-to_str_example :
    let k : StorageKey = record { id = "resize"; version = some 3; alias = some "latest" } in
    from_str (to_str k) ≡ parsed k
from_str-to_str_example =
    from_str-to_str (record { id = "resize"; version = some 3; alias = some "latest" })
      resize-NoColon latest-NoColon

get-put_full_key_example :
    InMemory.get {V = ℕ} (InMemory.put InMemory.init (full_key "f" 1) 7) (full_key "f" 1) ≡ (
      if pair_beq {A = String} {B = ℕ} ("f", 1) ("f", 1)
      then found (some 7)
      else InMemory.get InMemory.init (full_key "f" 1))
get-put_full_key_example = get-put_full_key InMemory.init "f" "f" 1 1 7 init-IsIndexed

expected_chunk_len-total_example : size_from 10 4 0 3 ≡ 10
unfolding total_chunks_for ceil_div
expected_chunk_len-total_example = expected_chunk_len-total 10 4 {k = 3} (omega arith) refl

-- Chunks in a dict, and a hash that is the empty text.
abbrev chunks : BlobBackend
chunks = record {
  Store = Dict String Bytes;
  Error = Unit;
  put = λ s k x. (Dict.put s k x, ok tt);
  get = λ s k. ok (Dict.get s k);
  delete = λ s k. (Dict.pop s k, ok tt);
  exists = λ s k. ok (Dict.has s k);
}

abbrev no_hash : HashLib
no_hash = record { State = Unit; new = λ a. tt; update = λ s x. tt; hexdigest = λ s. "" }

abbrev fresh : DataRegistry (in_memory DataRecord) chunks no_hash
fresh = record {
  catalog = InMemory.init;
  blob_backends = ("fs", []) ∷ [];
  open_streams = [];
  hash_cache = [];
  completed_uploads = [];
  emitted = [];
}

abbrev registered : DataRegistry (in_memory DataRecord) chunks no_hash
registered =
    (register (in_memory DataRecord) chunks no_hash fresh "d" 1 "raw" "fs" 2 2 5 none "sha256").0

abbrev stored : DataRegistry (in_memory DataRecord) chunks no_hash
stored = (store_chunk (in_memory DataRecord) chunks no_hash registered "d" 1 0 (7 ∷ 8 ∷ []) 6).0

uploads_signalled_once_example :
    (signals 0 stored.emitted ("d", 1) ≤ 1)
    × ((contains stored.completed_uploads ("d", 1) ≡ true)
        ↔ (signals 0 stored.emitted ("d", 1) ≡ 1))
uploads_signalled_once_example =
    uploads_signalled_once (in_memory DataRecord) chunks no_hash {r = stored} ("d", 1)
      (next (next (start fresh refl refl) (registers fresh "d" 1 "raw" "fs" 2 2 5 none "sha256"))
        (stores registered "d" 1 0 (7 ∷ 8 ∷ []) 6))

abbrev photo : DataRecord
photo = record {
  name = "photos/a";
  version = 1;
  alias = "photos/a";
  format = "raw";
  kind = "fs";
  total_size = 6;
  chunk_bytes = 4;
  total_chunks = 2;
  created_at = 0;
  declared_hash = none;
  content_hash_algo = "sha256";
}

abbrev buckets : String → Option DataBucket
buckets name = some (record { name = name; quota_bytes = 20; created_at = 0 })

-- Of two versions of 6 bytes and a photo of 12, the last is over the quota of 20.
abbrev requests : List (DataRecord × Bool)
requests =
    (photo, true)
    ∷ (record photo { version = 2 }, true)
    ∷ (record photo { name = "photos/b"; total_size = 12 }, true)
    ∷ []

total_in_photos : total_in "photos" (handle_all buckets [] requests) ≡ 12
unfolding total_in handle_all handle_register starts_with concat is_in same_text
total_in_photos = refl
