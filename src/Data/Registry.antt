-- ===== src/Data/Registry.antt =====
-- axo_endpoint/core/data/registry.py, up to `register_and_store`; its streams and its status are the
-- children. The event bus is the list of the events that were emitted. "fs" is the only kind that
-- `KEY_TYPES` of axo_endpoint/core/dataio/protocol.py knows.
pub mod Streams
pub mod Status
pub mod Completion
pub mod Runs
use activex_endpoint.Prelude.{
  ℕ, zero, suc, ◌+◌, ◌*◌, String, Bool, true, false, not, ◌&&◌, ◌||◌, Option, none, some, List, [],
  ◌∷◌, ◌++◌, filter, length, take, drop, range_from, if◌then◌else◌, leb, nat_beq, ◌==◌, string_eq,
  nat_eq, pair_eq, Eq, pair_beq,
}
use activex_endpoint.Prelude.Dict
use activex_endpoint.Prelude.Dict.{Dict}
use activex_endpoint.Prelude.Sets.{contains}
use activex_endpoint.Prelude.Outcome.{Result, ok, err}
use activex_endpoint.Storage.Backend.{StorageBackend}
use activex_endpoint.Storage.InMemory.Laws.{full_key}
use activex_endpoint.Data.Chunking.{total_chunks_for, expected_chunk_len}
use activex_endpoint.Data.Models.{Bytes, DataRecord, BlobBackend, HashLib, chunk_key}

abbrev pub upload_eq : Eq (String × ℕ)
upload_eq = pair_eq

pub data EventType : Type 0 where
  data_registered upload_completed data_deleted : EventType

-- Every payload carries the name and the version.
pub record DataEvent : Type 0 where
  pub event_type : EventType
  pub data_id : String
  pub version : ℕ
  pub timestamp : ℕ

-- `kind in KEY_TYPES`
abbrev pub has_key_type : String → Bool
has_key_type kind = string_eq.beq kind "fs"

module _ (c : StorageBackend DataRecord) (b : BlobBackend) (h : HashLib) where
  pub record OpenStream : Type 0 where
    pub format : String
    pub kind : String
    pub chunk_bytes : ℕ
    pub next_index : ℕ
    pub total_size : ℕ
    pub hasher : h.State

  pub record DataRegistry : Type 0 where
    pub catalog : c.Store
    pub blob_backends : Dict String b.Store
    pub open_streams : Dict (String × ℕ) OpenStream
    pub hash_cache : Dict (String × ℕ) (String × Bool)
    pub completed_uploads : List (String × ℕ)
    pub emitted : List DataEvent

  pub data DataError : Type 0 where
    catalog_error : c.Error → DataError
    blob_error : b.Error → DataError
    unknown_kind : String → DataError
    not_registered : String → ℕ → DataError
    index_out_of_range : ℕ → ℕ → DataError
    size_mismatch : ℕ → ℕ → DataError
    stream_not_open : String → ℕ → DataError
    stream_already_finalized : String → ℕ → DataError
    -- the exceptions that the methods let through
    zero_division : DataError
    key_error : String → DataError

  abbrev pub Reply : Type 0 → Type 0
  Reply A = DataRegistry × Result DataError A

  unfoldable pub emit : DataRegistry → EventType → String → ℕ → ℕ → DataRegistry
  emit r event_type name version now = record r {
    emitted =
        r.emitted
        ++ record { event_type = event_type; data_id = name; version = version; timestamp = now }
          ∷ [];
  }

  -- `if self._mark_completed_if_first_time(name, version): self._emit_upload_completed(...)`
  unfoldable pub complete_once : DataRegistry → String → ℕ → ℕ → DataRegistry
  unfolding emit
  complete_once r name version now =
      if contains r.completed_uploads (name, version)
      then r
      else emit (record r { completed_uploads = (name, version) ∷ r.completed_uploads })
          upload_completed name version now

  -- `none` where the catalog fails, as where it has no record.
  unfoldable pub get_record : DataRegistry → String → ℕ → Option DataRecord
  get_record r name version = elim (c.get r.catalog (full_key name version)) [
    | err e ↦ none
    | ok found ↦ found
  ]

  unfoldable pub after_put :
      DataRegistry → DataRecord → Bool → ℕ → c.Store × Result c.Error Unit → Reply DataRecord
  unfolding emit complete_once
  after_put r rec complete now (s, err e) = (record r { catalog = s }, err (catalog_error e))
  after_put r rec complete now (s, ok _) =
      let registered = emit (record r { catalog = s }) data_registered rec.name rec.version now in
      (if complete then complete_once registered rec.name rec.version now else registered, ok rec)

  -- The catalog's `put`, then the events of `register` and `finalize_stream`.
  unfoldable pub put_record : DataRegistry → DataRecord → Bool → ℕ → Reply DataRecord
  unfolding after_put
  put_record r rec complete now =
      after_put r rec complete now (c.put r.catalog (full_key rec.name rec.version) rec)

  unfoldable pub register :
      DataRegistry
      → String
      → ℕ
      → String
      → String
      → ℕ
      → ℕ
      → ℕ
      → Option String
      → String
      → Reply DataRecord
  unfolding put_record
  register r name version format kind total_size chunk_bytes now content_hash content_hash_algo =
      if not (Dict.has r.blob_backends kind) || not (has_key_type kind)
      then (r, err (unknown_kind kind))
      else elim (total_chunks_for total_size chunk_bytes) [
        | none ↦ (r, err zero_division)
        | some total_chunks ↦
            put_record r
              (record {
                name = name;
                version = version;
                alias = name;
                format = format;
                kind = kind;
                total_size = total_size;
                chunk_bytes = chunk_bytes;
                total_chunks = total_chunks;
                created_at = now;
                declared_hash = content_hash;
                content_hash_algo = content_hash_algo;
              })
              (nat_beq total_chunks 0) now
      ]

  -- Whether `n` chunks from `i` on are there. A failed test counts as absent.
  unfoldable pub present_from : b.Store → String → ℕ → ℕ → ℕ → Bool
  present_from s name version i zero = true
  present_from s name version i (suc n) =
      let rest = present_from s name version (i + 1) n in
      elim (b.exists s (chunk_key name version i)) [ err e ↦ false | ok here ↦ here && rest ]

  unfoldable pub delete_chunks : b.Store → String → ℕ → ℕ → ℕ → b.Store
  delete_chunks s name version i zero = s
  delete_chunks s name version i (suc n) =
      delete_chunks (b.delete s (chunk_key name version i)).0 name version (i + 1) n

  unfoldable pub delete_blobs : DataRegistry → DataRecord → DataRegistry
  unfolding delete_chunks
  delete_blobs r rec = elim (Dict.get r.blob_backends rec.kind) [
    | none ↦ r
    | some s ↦ record r {
      blob_backends =
          Dict.put r.blob_backends rec.kind
            (delete_chunks s rec.name rec.version 0 rec.total_chunks);
    }
  ]

  unfoldable pub delete : DataRegistry → String → ℕ → ℕ → Reply Unit
  unfolding delete_blobs emit get_record
  delete r name version now = elim (get_record r name version) [
    | none ↦ (r, err (not_registered name version))
    | some rec ↦
        let r' = delete_blobs r (record rec { name = name; version = version }) in
        let (s, deleted) = c.delete r'.catalog (full_key name version) in
        elim deleted [
          | err e ↦ (record r' { catalog = s }, err (catalog_error e))
          | ok _ ↦ (
            emit
                (record r' {
                  catalog = s;
                  completed_uploads =
                      filter (λ k. not (pair_beq k (name, version))) r'.completed_uploads;
                  hash_cache = Dict.pop r'.hash_cache (name, version);
                })
                data_deleted name version now,
            ok tt,
          )
        ]
  ]

  unfoldable pub after_write :
      DataRegistry → DataRecord → String → ℕ → ℕ → b.Store × Result b.Error Unit → Reply DataRecord
  unfolding complete_once present_from
  after_write r rec name version now (s, err e) =
      (record r { blob_backends = Dict.put r.blob_backends rec.kind s }, err (blob_error e))
  after_write r rec name version now (s, ok _) =
      let r' = record r { blob_backends = Dict.put r.blob_backends rec.kind s } in
      (
        if present_from s rec.name rec.version 0 rec.total_chunks
            then complete_once r' name version now
            else r',
        ok rec,
      )

  -- The write of `store_chunk`, once the chunk is known to fit.
  unfoldable pub write_chunk :
      DataRegistry → DataRecord → String → ℕ → ℕ → Bytes → ℕ → Option b.Store → Reply DataRecord
  unfolding after_write
  write_chunk r rec name version chunk_index bytes now none = (r, err (key_error rec.kind))
  write_chunk r rec name version chunk_index bytes now (some blobs) =
      after_write r rec name version now (b.put blobs (chunk_key name version chunk_index) bytes)

  -- The guards of `store_chunk` on the record. An index is a number from 0 on.
  unfoldable pub store_in :
      DataRegistry → String → ℕ → ℕ → Bytes → ℕ → Option DataRecord → Reply DataRecord
  unfolding write_chunk
  store_in r name version chunk_index bytes now none = (r, err (not_registered name version))
  store_in r name version chunk_index bytes now (some rec) =
      if leb rec.total_chunks chunk_index
      then (r, err (index_out_of_range chunk_index rec.total_chunks))
      else elim (expected_chunk_len rec.total_size rec.chunk_bytes chunk_index) [
        | none ↦ (r, err zero_division)
        | some expected_len ↦
            if nat_beq (length bytes) expected_len
            then write_chunk r rec name version chunk_index bytes now
                (Dict.get r.blob_backends rec.kind)
            else (r, err (size_mismatch expected_len (length bytes)))
      ]

  unfoldable pub store_chunk : DataRegistry → String → ℕ → ℕ → Bytes → ℕ → Reply DataRecord
  unfolding store_in get_record
  store_chunk r name version chunk_index bytes now =
      store_in r name version chunk_index bytes now (get_record r name version)

  unfoldable pub read_chunk : DataRegistry → String → ℕ → ℕ → Result DataError Bytes
  unfolding get_record
  read_chunk r name version chunk_index = elim (get_record r name version) [
    | none ↦ err (not_registered name version)
    | some rec ↦ elim (Dict.get r.blob_backends rec.kind) [
      | none ↦ err (key_error rec.kind)
      | some blobs ↦ elim (b.get blobs (chunk_key name version chunk_index)) [
        | err e ↦ err (blob_error e)
        | ok none ↦ err (not_registered name version)
        | ok (some bytes) ↦ ok bytes
      ]
    ]
  ]

  unfoldable pub read_from : DataRegistry → String → ℕ → ℕ → ℕ → Result DataError Bytes
  unfolding read_chunk
  read_from r name version i zero = ok []
  read_from r name version i (suc n) =
      let rest = read_from r name version (i + 1) n in
      elim (read_chunk r name version i) [
        | err e ↦ err e
        | ok part ↦ (elim rest [ err e ↦ err e | ok parts ↦ ok (part ++ parts) ])
      ]

  unfoldable pub read_whole : DataRegistry → String → ℕ → Result DataError Bytes
  unfolding read_from get_record
  read_whole r name version = elim (get_record r name version) [
    | none ↦ err (not_registered name version)
    | some rec ↦ read_from r name version 0 rec.total_chunks
  ]

  -- The loop of `register_and_store` over the indices; `data[start:start + chunk_bytes]`
  unfoldable pub store_each : DataRecord → ℕ → Bytes → ℕ → List ℕ → DataRegistry → Reply DataRecord
  unfolding store_chunk
  store_each rec chunk_bytes bytes now [] r = (r, ok rec)
  store_each rec chunk_bytes bytes now (i ∷ is) r =
      let (r', stored) =
        store_chunk r rec.name rec.version i (take chunk_bytes (drop (i * chunk_bytes) bytes))
          now in
      let rest = store_each rec chunk_bytes bytes now is r' in
      elim stored [ err e ↦ (r', err e) | ok _ ↦ rest ]

  -- The clock that `store_chunk` reads without `now` is `now` here.
  unfoldable pub register_and_store :
      DataRegistry
      → String
      → ℕ
      → String
      → String
      → Bytes
      → ℕ
      → ℕ
      → Option String
      → String
      → Reply DataRecord
  unfolding register store_each
  register_and_store r name version format kind bytes now chunk_bytes content_hash
        content_hash_algo =
      let (r', registered) =
        register r name version format kind (length bytes) chunk_bytes now content_hash
          content_hash_algo in
      elim registered [
        | err e ↦ (r', err e)
        | ok rec ↦ store_each rec chunk_bytes bytes now (range_from 0 rec.total_chunks) r'
      ]
