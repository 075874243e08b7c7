-- ===== src/Data/Registry/Runs.antt =====
-- The operations of axo_endpoint/core/data/registry.py one after another, and what they signal.
use activex_endpoint.Prelude.{
  ℕ, ◌≤◌, String, ◌≡◌, true, Option, [], arith, ◌↔◌, string_eq, nat_eq, pair_eq,
}
use activex_endpoint.Prelude.Sets.{contains}
use activex_endpoint.Storage.Backend.{StorageBackend}
use activex_endpoint.Data.Models.{Bytes, DataRecord, BlobBackend, HashLib}
use activex_endpoint.Data.Registry.Streams.{open_stream, append_chunk, finalize_stream}
use activex_endpoint.Data.Registry.Status.{status}
use activex_endpoint.Data.Registry.Completion.{
  signals, SignalsOnce, register-SignalsOnce, store_in-SignalsOnce, delete-SignalsOnce,
  register_and_store-SignalsOnce, append_chunk-SignalsOnce, finalize_open-SignalsOnce,
  status-SignalsOnce,
}
use activex_endpoint.Data.Registry.{DataRegistry, register, delete, store_chunk, register_and_store}

module _ (c : StorageBackend DataRecord) (b : BlobBackend) (h : HashLib) where
  -- What changes the registry's uploads and events.
  pub data Step : DataRegistry c b h → DataRegistry c b h → Type 0 where
    registers :
        (r : DataRegistry c b h) (name : String) (version : ℕ) (format kind : String)
        (total_size chunk_bytes now : ℕ) (hash : Option String) (algo : String)
        → Step r (register c b h r name version format kind total_size chunk_bytes now hash algo).0
    stores :
        (r : DataRegistry c b h) (name : String) (version i : ℕ) (bytes : Bytes) (now : ℕ)
        → Step r (store_chunk c b h r name version i bytes now).0
    deletes :
        (r : DataRegistry c b h) (name : String) (version now : ℕ)
        → Step r (delete c b h r name version now).0
    registers_and_stores :
        (r : DataRegistry c b h) (name : String) (version : ℕ) (format kind : String)
        (bytes : Bytes) (now chunk_bytes : ℕ) (hash : Option String) (algo : String)
        → Step r
            (register_and_store c b h r name version format kind bytes now chunk_bytes hash algo).0
    opens :
        (r : DataRegistry c b h) (name : String) (version : ℕ) (format kind : String)
        (chunk_bytes : ℕ)
        → Step r (open_stream c b h r name version format kind chunk_bytes)
    appends :
        (r : DataRegistry c b h) (name : String) (version : ℕ) (bytes : Bytes)
        → Step r (append_chunk c b h r name version bytes).0
    finalizes :
        (r : DataRegistry c b h) (name : String) (version now : ℕ)
        → Step r (finalize_stream c b h r name version now).0
    reads_status :
        (r : DataRegistry c b h) (name : String) (version : ℕ)
        → Step r (status c b h r name version).0

  -- The registries that the operations lead to from one with no event and no completed upload.
  pub data Run : DataRegistry c b h → Type 0 where
    start : (r : DataRegistry c b h) → r.emitted ≡ [] → r.completed_uploads ≡ [] → Run r
    next : {r r' : DataRegistry c b h} → Run r → Step r r' → Run r'

  Step-SignalsOnce :
      {r r' : DataRegistry c b h} (u : String × ℕ)
      → Step r r'
      → SignalsOnce c b h r u
      → SignalsOnce c b h r' u
  unfolding store_chunk open_stream finalize_stream SignalsOnce
  Step-SignalsOnce u (registers r n v f k t cb now hash algo) s =
      register-SignalsOnce c b h r u n v f k t cb now hash algo s
  Step-SignalsOnce u (stores r n v i bytes now) s =
      store_in-SignalsOnce c b h r u n v i bytes now _ s
  Step-SignalsOnce u (deletes r n v now) s = delete-SignalsOnce c b h r u n v now s
  Step-SignalsOnce u (registers_and_stores r n v f k bytes now cb hash algo) s =
      register_and_store-SignalsOnce c b h r u n v f k bytes now cb hash algo s
  Step-SignalsOnce u (opens r n v f k cb) s = s
  Step-SignalsOnce u (appends r n v bytes) s = append_chunk-SignalsOnce c b h r u n v bytes s
  Step-SignalsOnce u (finalizes r n v now) s = finalize_open-SignalsOnce c b h r u n v now _ s
  Step-SignalsOnce u (reads_status r n v) s = status-SignalsOnce c b h r u n v s

  Run-SignalsOnce : {r : DataRegistry c b h} (u : String × ℕ) → Run r → SignalsOnce c b h r u
  unfolding SignalsOnce signals contains
  Run-SignalsOnce u (start r silent empty) = ground (arith, silent, empty)
  Run-SignalsOnce u (next run step) = Step-SignalsOnce u step (Run-SignalsOnce u run)

  -- However the operations of the registry are called, the completion of an upload is signalled at
  -- most once since its last deletion, and exactly once if it is in the set of completed uploads.
  pub uploads_signalled_once :
      {r : DataRegistry c b h} (u : String × ℕ)
      → Run r
      → (signals 0 r.emitted u ≤ 1)
        × ((contains r.completed_uploads u ≡ true) ↔ (signals 0 r.emitted u ≡ 1))
  unfolding SignalsOnce
  uploads_signalled_once {r} u run = ground (arith, Run-SignalsOnce u run)
