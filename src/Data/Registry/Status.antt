-- ===== src/Data/Registry/Status.antt =====
-- `status` and `_compute_hash` of axo_endpoint/core/data/registry.py.
use activex_endpoint.Prelude.{
  ℕ, zero, suc, ◌+◌, String, Bool, true, false, Option, none, some, List, [], ◌∷◌, length, nat_beq,
  if◌then◌else◌, string_eq, nat_eq, pair_eq, option_beq,
}
use activex_endpoint.Prelude.Dict
use activex_endpoint.Prelude.Outcome.{Result, ok, err}
use activex_endpoint.Storage.Backend.{StorageBackend}
use activex_endpoint.Data.Models.{Bytes, DataRecord, DataStatus, BlobBackend, HashLib, chunk_key}
use activex_endpoint.Data.Registry.{DataRegistry, get_record}

abbrev unregistered : String → ℕ → DataStatus
unregistered name version = record {
  registered = false;
  name = name;
  version = version;
  format = "";
  kind = "";
  total_size = 0;
  chunk_bytes = 0;
  total_chunks = 0;
  present_chunk_indices = [];
  complete = false;
  declared_hash = none;
  computed_hash = none;
  hash_verified = none;
}

-- `get_result.unwrap() if get_result.is_ok else None`, then `or b""`
abbrev bytes_of : {E : Type 0} → Result E (Option Bytes) → Bytes
bytes_of (err e) = []
bytes_of (ok none) = []
bytes_of (ok (some bytes)) = bytes

module _ (c : StorageBackend DataRecord) (b : BlobBackend) (h : HashLib) where
  unfoldable pub present_indices : b.Store → String → ℕ → ℕ → ℕ → List ℕ
  present_indices s name version i zero = []
  present_indices s name version i (suc n) =
      let rest = present_indices s name version (i + 1) n in
      elim (b.exists s (chunk_key name version i)) [
        | err e ↦ rest
        | ok here ↦ if here then i ∷ rest else rest
      ]

  unfoldable pub hash_from : b.Store → String → ℕ → ℕ → ℕ → h.State → h.State
  hash_from s name version i zero hasher = hasher
  hash_from s name version i (suc n) hasher =
      hash_from s name version (i + 1) n
        (h.update hasher (bytes_of (b.get s (chunk_key name version i))))

  unfoldable pub compute_hash : b.Store → DataRecord → String
  unfolding hash_from
  compute_hash s rec =
      h.hexdigest
        (hash_from s rec.name rec.version 0 rec.total_chunks (h.new rec.content_hash_algo))

  -- The status of a record, from the present chunks and the hash, if there is one.
  abbrev report : DataRecord → List ℕ → Bool → Option (String × Bool) → DataStatus
  report rec present complete hash = record {
    registered = true;
    name = rec.name;
    version = rec.version;
    format = rec.format;
    kind = rec.kind;
    total_size = rec.total_size;
    chunk_bytes = rec.chunk_bytes;
    total_chunks = rec.total_chunks;
    present_chunk_indices = present;
    complete = complete;
    declared_hash = rec.declared_hash;
    computed_hash = (elim hash [ none ↦ none | some (text, verified) ↦ some text ]);
    hash_verified = (elim hash [ none ↦ none | some (text, verified) ↦ some verified ]);
  }

  abbrev no_backend : DataRegistry c b h → DataRecord → DataRegistry c b h × Option DataStatus
  no_backend r rec =
      if nat_beq rec.total_chunks 0
      then (elim (Dict.get r.hash_cache (rec.name, rec.version)) [
        | none ↦ (r, none)
        | some cached ↦ (r, some (report rec [] true (some cached)))
      ])
      else (r, some (report rec [] false none))

  -- The hash of a complete record, computed the first time, and the cache after it.
  unfoldable pub cached_hash :
      DataRegistry c b h → DataRecord → b.Store → DataRegistry c b h × (String × Bool)
  unfolding compute_hash
  cached_hash r rec s = elim (Dict.get r.hash_cache (rec.name, rec.version)) [
    | some cached ↦ (r, cached)
    | none ↦
        let computed = compute_hash s rec in
        let verified = option_beq rec.declared_hash (some computed) in
        (
          record r {
            hash_cache = Dict.put r.hash_cache (rec.name, rec.version) (computed, verified);
          },
          (computed, verified),
        )
  ]

  -- `none` is the KeyError of a complete record whose backend is gone.
  unfoldable pub status : DataRegistry c b h → String → ℕ → DataRegistry c b h × Option DataStatus
  unfolding get_record present_indices cached_hash
  status r name version = elim (get_record c b h r name version) [
    | none ↦ (r, some (unregistered name version))
    | some rec ↦ elim (Dict.get r.blob_backends rec.kind) [
      | none ↦ no_backend r rec
      | some s ↦
          let present = present_indices s name version 0 rec.total_chunks in
          let complete = nat_beq (length present) rec.total_chunks in
          let (r', hash) = cached_hash r rec s in
          if complete
          then (r', some (report rec present true (some hash)))
          else (r, some (report rec present false none))
    ]
  ]
