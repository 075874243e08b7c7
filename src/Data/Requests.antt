-- ===== src/Data/Requests.antt =====
-- axo_endpoint/core/dataio/protocol.py, with ref.py beside it. The storage backends are those of the
-- data registry, as an endpoint passes them, and an endpoint without a registry only has the
-- backends. Errors that cross to the worker are kept apart by their class alone. The json module
-- and the text of a number are the parameter `WireLib` and `decimal`.
pub mod Refs
pub mod Adhoc
use Prim.Native.Char.{Char, code}
use Prim.Native.String
use activex_endpoint.Prelude.{
  ℕ, String, Bool, true, false, ◌&&◌, ◌||◌, Option, none, some, List, [], ◌∷◌, is_empty, leb,
  nat_beq, if◌then◌else◌, ◌==◌, string_eq,
}
use activex_endpoint.Prelude.Dict
use activex_endpoint.Prelude.Outcome.{Result, ok, err}
use activex_endpoint.Text.{to_version, decimal}
use activex_endpoint.Storage.Backend.{StorageBackend}
use activex_endpoint.Storage.InMemory.Laws.{full_key}
use activex_endpoint.Functions.Params.{
  Json, null, boolean, number, string, object, close, field, field_of,
}
use activex_endpoint.Functions.Codec.{number_of}
use activex_endpoint.Data.Models.{Bytes, DataRecord, DataStatus, BlobBackend, HashLib}
use activex_endpoint.Data.Registry.{
  DataRegistry, DataError, get_record, has_key_type, read_chunk, read_whole,
}
use activex_endpoint.Data.Registry.Streams.{open_stream, append_chunk, finalize_stream}
use activex_endpoint.Data.Registry.Status.{status}
use activex_endpoint.Consensus.Sync.{WireLib}
use activex_endpoint.Data.Requests.Refs.{
  IoRef, DataIoError, backend_error, not_found, unknown_op, unknown_ref_kind, raised,
  parse_registered_ref, chunk_bytes_of, codes,
}

module _ (c : StorageBackend DataRecord) (b : BlobBackend) (h : HashLib) (w : WireLib) where
  -- The registry, with the backends in it, and whether the endpoint has it.
  pub record DataEndpoint : Type 0 where
    pub registry : DataRegistry c b h
    pub configured : Bool

  abbrev pub Reply : Type 0
  Reply = DataEndpoint × Result DataIoError Bytes

  abbrev keep : DataEndpoint → DataRegistry c b h → DataEndpoint
  keep e r = record e { registry = r }

  -- `_backend_and_key`: the backend; the key of kind "fs" is the location.
  unfoldable pub backend_of : DataEndpoint → String → Option b.Store
  backend_of e kind = if has_key_type kind then Dict.get e.registry.blob_backends kind else none

  abbrev found_or : Result b.Error (Option Bytes) → Result DataIoError Bytes
  found_or (err e) = err backend_error
  found_or (ok none) = err not_found
  found_or (ok (some bytes)) = ok bytes

  unfoldable pub read_adhoc : DataEndpoint → IoRef → Result DataIoError Bytes
  unfolding backend_of
  read_adhoc e ref = elim (backend_of e ref.kind) [
    | none ↦ err unknown_ref_kind
    | some s ↦ found_or (b.get s ref.location)
  ]

  -- A KeyError of the registry is let through; the other errors are wrapped.
  abbrev wrapped : DataError c b h → DataIoError
  wrapped (DataError.key_error kind) = raised
  wrapped DataError.zero_division = raised
  wrapped e = backend_error

  abbrev wrap : Result (DataError c b h) Bytes → Result DataIoError Bytes
  wrap (err e) = err (wrapped e)
  wrap (ok bytes) = ok bytes

  -- The registered record that the location names, if there is one.
  unfoldable pub registered_at : DataEndpoint → String → Option (String × ℕ)
  unfolding parse_registered_ref get_record
  registered_at e location =
      if e.configured
      then (elim (parse_registered_ref location) [
        | none ↦ none
        | some (name, version) ↦ elim (get_record c b h e.registry name version) [
          | none ↦ none
          | some rec ↦ some (name, version)
        ]
      ])
      else none

  unfoldable pub read : DataEndpoint → IoRef → Result DataIoError Bytes
  unfolding registered_at read_adhoc read_whole
  read e ref = elim (registered_at e ref.location) [
    | some (name, version) ↦ wrap (read_whole c b h e.registry name version)
    | none ↦ read_adhoc e ref
  ]

  unfoldable pub after_write : DataEndpoint → String → b.Store × Result b.Error Unit → Reply
  after_write e kind (s, result) =
      let r = e.registry in
      (
        keep e (record r { blob_backends = Dict.put r.blob_backends kind s }),
        elim result [ err bad ↦ err backend_error | ok _ ↦ ok [] ],
      )

  unfoldable pub write : DataEndpoint → IoRef → Bytes → Reply
  unfolding backend_of after_write
  write e ref bytes = elim (backend_of e ref.kind) [
    | none ↦ (e, err unknown_ref_kind)
    | some s ↦ after_write e ref.kind (b.put s ref.location bytes)
  ]

  -- `_require_registry` and `_require_parsed_ref`.
  unfoldable pub with_ref : DataEndpoint → IoRef → (String → ℕ → Reply) → Reply
  unfolding parse_registered_ref
  with_ref e ref act =
      if e.configured
      then (elim (parse_registered_ref ref.location) [
        | none ↦ (e, err unknown_ref_kind)
        | some (name, version) ↦ act name version
      ])
      else (e, err unknown_ref_kind)

  abbrev status_reply : DataEndpoint → DataRegistry c b h × Option DataStatus → Reply
  status_reply e (r, none) = (keep e r, err raised)
  status_reply e (r, some st) =
      if st.registered
      then (
        keep e r,
        ok (
            w.dumps (
              object (
                field "total_chunks" (number_of st.total_chunks)
                  (field "chunk_bytes" (number_of st.chunk_bytes) close)))),
      )
      else (keep e r, err not_found)

  unfoldable pub chunk_status : DataEndpoint → IoRef → Reply
  unfolding with_ref
  chunk_status e ref =
      with_ref e ref λ name version. status_reply e (status c b h e.registry name version)

  -- The index is asked for before the location is parsed.
  unfoldable pub read_one_chunk : DataEndpoint → IoRef → Reply
  unfolding with_ref
  read_one_chunk e ref = elim ref.chunk_index [
    | none ↦ (e, err (if e.configured then unknown_op else unknown_ref_kind))
    | some index ↦
        with_ref e ref λ name version. (e, wrap (read_chunk c b h e.registry name version index))
  ]

  unfoldable pub stream_open : DataEndpoint → IoRef → Bytes → Reply
  unfolding with_ref chunk_bytes_of
  stream_open e ref bytes = with_ref e ref λ name version. elim (chunk_bytes_of w bytes) [
    | none ↦ (e, err raised)
    | some chunk_bytes ↦
        (keep e (open_stream c b h e.registry name version ref.format ref.kind chunk_bytes), ok [])
  ]

  unfoldable pub stream_append : DataEndpoint → IoRef → Bytes → Reply
  unfolding with_ref codes
  stream_append e ref bytes = with_ref e ref λ name version.
      let (r, appended) = append_chunk c b h e.registry name version bytes in
      (
        keep e r,
        elim appended [ err bad ↦ err (wrapped bad) | ok index ↦ ok (codes (decimal index)) ],
      )

  unfoldable pub stream_finalize : DataEndpoint → IoRef → ℕ → Reply
  unfolding with_ref
  stream_finalize e ref now = with_ref e ref λ name version.
      let (r, finalized) = finalize_stream c b h e.registry name version now in
      (keep e r, elim finalized [ err bad ↦ err (wrapped bad) | ok rec ↦ ok [] ])

  -- No data is the empty payload.
  unfoldable pub resolve_io_request : DataEndpoint → String → IoRef → Bytes → ℕ → Reply
  unfolding read write chunk_status read_one_chunk stream_open stream_append stream_finalize
  resolve_io_request e op ref bytes now =
      if op == "read"
      then (e, read e ref)
      else if op == "write"
      then write e ref bytes
      else if op == "chunk_status"
      then chunk_status e ref
      else if op == "read_chunk"
      then read_one_chunk e ref
      else if op == "open_stream"
      then stream_open e ref bytes
      else if op == "append_chunk"
      then stream_append e ref bytes
      else if op == "finalize_stream"
      then stream_finalize e ref now
      else (e, err unknown_op)
