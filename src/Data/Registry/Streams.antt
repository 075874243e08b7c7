-- ===== src/Data/Registry/Streams.antt =====
-- The streaming writes of axo_endpoint/core/data/registry.py: `open_stream`, `append_chunk`,
-- `finalize_stream`.
use activex_endpoint.Prelude.{
  ℕ, ◌+◌, String, true, Option, none, some, length, string_eq, nat_eq, pair_eq,
}
use activex_endpoint.Prelude.Dict
use activex_endpoint.Prelude.Outcome.{ok, err}
use activex_endpoint.Storage.Backend.{StorageBackend}
use activex_endpoint.Data.Models.{Bytes, DataRecord, BlobBackend, HashLib, chunk_key}
use activex_endpoint.Data.Registry.{
  DataRegistry, unknown_kind, stream_not_open, stream_already_finalized, blob_error, OpenStream,
  Reply, put_record,
}

module _ (c : StorageBackend DataRecord) (b : BlobBackend) (h : HashLib) where
  unfoldable pub open_stream :
      DataRegistry c b h → String → ℕ → String → String → ℕ → DataRegistry c b h
  open_stream r name version format kind chunk_bytes = record r {
    open_streams =
        Dict.put r.open_streams (name, version)
          (record {
            format = format;
            kind = kind;
            chunk_bytes = chunk_bytes;
            next_index = 0;
            total_size = 0;
            hasher = h.new "sha256";
          });
  }

  -- The stream after one more chunk.
  abbrev pub advance : OpenStream c b h → Bytes → OpenStream c b h
  advance stream bytes = record stream {
    hasher = h.update stream.hasher bytes;
    total_size = stream.total_size + length bytes;
    next_index = stream.next_index + 1;
  }

  unfoldable pub append_chunk : DataRegistry c b h → String → ℕ → Bytes → Reply c b h ℕ
  append_chunk r name version bytes = elim (Dict.get r.open_streams (name, version)) [
    | none ↦ (r, err (stream_not_open name version))
    | some stream ↦ elim (Dict.get r.blob_backends stream.kind) [
      | none ↦ (r, err (unknown_kind stream.kind))
      | some blobs ↦
          let (s, stored) = b.put blobs (chunk_key name version stream.next_index) bytes in
          let r' = record r { blob_backends = Dict.put r.blob_backends stream.kind s } in
          elim stored [
            | err e ↦ (r', err (blob_error e))
            | ok _ ↦ (
              record r' {
                open_streams = Dict.put r.open_streams (name, version) (advance stream bytes);
              },
              ok stream.next_index,
            )
          ]
    ]
  ]

  unfoldable pub finalize_open :
      DataRegistry c b h → String → ℕ → ℕ → Option (OpenStream c b h) → Reply c b h DataRecord
  unfolding put_record
  finalize_open r name version now none = (r, err (stream_already_finalized name version))
  finalize_open r name version now (some stream) =
      put_record c b h (record r { open_streams = Dict.pop r.open_streams (name, version) })
        (record {
          name = name;
          version = version;
          alias = name;
          format = stream.format;
          kind = stream.kind;
          total_size = stream.total_size;
          chunk_bytes = stream.chunk_bytes;
          total_chunks = stream.next_index;
          created_at = now;
          declared_hash = some (h.hexdigest stream.hasher);
          content_hash_algo = "sha256";
        })
        true now

  unfoldable pub finalize_stream : DataRegistry c b h → String → ℕ → ℕ → Reply c b h DataRecord
  unfolding finalize_open
  finalize_stream r name version now =
      finalize_open r name version now (Dict.get r.open_streams (name, version))
