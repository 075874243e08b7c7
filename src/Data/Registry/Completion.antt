-- ===== src/Data/Registry/Completion.antt =====
-- The upload-completed event in each operation of axo_endpoint/core/data/registry.py.
use activex_endpoint.Prelude.{
  ℕ, ◌+◌, String, ◌≡◌, refl, Bool, true, false, not, Option, none, some, List, [], ◌∷◌, ◌++◌,
  if◌then◌else◌, arith, ◌*◌, take, drop, Option-cases, nat_beq, length, range_from, string_eq,
  nat_eq, pair_eq, pair_beq, Bool-cases, inl, inr,
}
use activex_endpoint.Prelude.Dict
use activex_endpoint.Prelude.Dict.{Dict}
use activex_endpoint.Prelude.Sets.{contains, contains-filter}
use activex_endpoint.Prelude.Outcome.{Result, ok, err, Result-cases}
use activex_endpoint.Storage.Backend.{StorageBackend}
use activex_endpoint.Storage.InMemory.Laws.{full_key}
use activex_endpoint.Data.Models.{Bytes, DataRecord, BlobBackend, HashLib}
use activex_endpoint.Data.Chunking.{total_chunks_for}
use activex_endpoint.Data.Registry.Streams.{append_chunk, finalize_open}
use activex_endpoint.Data.Registry.Status.{cached_hash, status}
use activex_endpoint.Data.Registry.{
  EventType, data_registered, upload_completed, data_deleted, DataEvent, upload_eq, DataRegistry,
  OpenStream, emit, complete_once, after_put, put_record, register, after_write, get_record,
  present_from, store_in, delete_blobs, delete, write_chunk, store_chunk, store_each,
  register_and_store,
}

abbrev after_event : EventType → ℕ → ℕ
after_event data_registered n = n
after_event upload_completed n = n + 1
after_event data_deleted n = 0

-- How often the completion of an upload was signalled since its last deletion.
unfoldable pub signals : ℕ → List DataEvent → String × ℕ → ℕ
signals n [] upload = n
signals n (e ∷ es) upload =
    signals (if pair_beq (e.data_id, e.version) upload then after_event e.event_type n else n) es
      upload

signals-append :
    (n : ℕ) (es : List DataEvent) (e : DataEvent) (upload : String × ℕ)
    → signals n (es ++ e ∷ []) upload ≡ (
        if pair_beq (e.data_id, e.version) upload
        then after_event e.event_type (signals n es upload)
        else signals n es upload)
unfolding signals
signals-append n [] e upload = refl
signals-append n (x ∷ es) e upload =
    signals-append
      (if pair_beq (x.data_id, x.version) upload then after_event x.event_type n else n) es e upload

module _ (c : StorageBackend DataRecord) (b : BlobBackend) (h : HashLib) where
  -- The set of completed uploads says which uploads have been signalled, and each of them was once.
  unfoldable pub SignalsOnce : DataRegistry c b h → String × ℕ → Type 0
  SignalsOnce r upload =
      signals 0 r.emitted upload ≡ (if contains r.completed_uploads upload then 1 else 0)

  emit-registered :
      (r : DataRegistry c b h) (u : String × ℕ) (name : String) (version now : ℕ)
      → SignalsOnce r u
      → SignalsOnce (emit c b h r data_registered name version now) u
  unfolding emit SignalsOnce
  emit-registered r u name version now s =
      let e : DataEvent = record {
        event_type = data_registered;
        data_id = name;
        version = version;
        timestamp = now;
      } in
      ground (arith, signals-append 0 r.emitted e u)

  complete_once-SignalsOnce :
      (r : DataRegistry c b h) (u : String × ℕ) (name : String) (version now : ℕ)
      → SignalsOnce r u
      → SignalsOnce (complete_once c b h r name version now) u
  unfolding complete_once emit SignalsOnce contains
  complete_once-SignalsOnce r u name version now s =
      let e : DataEvent = record {
        event_type = upload_completed;
        data_id = name;
        version = version;
        timestamp = now;
      } in
      ground (arith, signals-append 0 r.emitted e u, upload_eq.beq_iff (name, version) u)

  after_put-SignalsOnce :
      (r : DataRegistry c b h) (u : String × ℕ) (rec : DataRecord) (complete : Bool) (now : ℕ)
      (x : c.Store × Result c.Error Unit)
      → SignalsOnce r u
      → SignalsOnce (after_put c b h r rec complete now x).0 u
  unfolding after_put SignalsOnce
  after_put-SignalsOnce r u rec complete now (kept, err e) s = s
  after_put-SignalsOnce r u rec false now (kept, ok _) s =
      emit-registered (record r { catalog = kept }) u rec.name rec.version now s
  after_put-SignalsOnce r u rec true now (kept, ok _) s =
      complete_once-SignalsOnce _ u rec.name rec.version now
        (emit-registered (record r { catalog = kept }) u rec.name rec.version now s)

  after_write-SignalsOnce :
      (r : DataRegistry c b h) (u : String × ℕ) (rec : DataRecord) (name : String) (version now : ℕ)
      (x : b.Store × Result b.Error Unit)
      → SignalsOnce r u
      → SignalsOnce (after_write c b h r rec name version now x).0 u
  unfolding after_write SignalsOnce
  after_write-SignalsOnce r u rec name version now (blobs, err e) s = s
  after_write-SignalsOnce r u rec name version now (blobs, ok _) s =
      elim (Bool-cases (present_from c b h blobs rec.name rec.version 0 rec.total_chunks)) [
        | inl full ↦
            let r' : DataRegistry c b h = record r {
              blob_backends = Dict.put r.blob_backends rec.kind blobs;
            } in
            rw full (complete_once-SignalsOnce r' u name version now s)
        | inr partial ↦ rw partial s
      ]

  write_chunk-SignalsOnce :
      (r : DataRegistry c b h) (u : String × ℕ) (rec : DataRecord) (name : String) (version i : ℕ)
      (bytes : Bytes) (now : ℕ) (o : Option b.Store)
      → SignalsOnce r u
      → SignalsOnce (write_chunk c b h r rec name version i bytes now o).0 u
  unfolding write_chunk
  write_chunk-SignalsOnce r u rec name version i bytes now none s = s
  write_chunk-SignalsOnce r u rec name version i bytes now (some blobs) s =
      after_write-SignalsOnce r u rec name version now _ s

  pub store_in-SignalsOnce :
      (r : DataRegistry c b h) (u : String × ℕ) (name : String) (version i : ℕ) (bytes : Bytes)
      (now : ℕ) (o : Option DataRecord)
      → SignalsOnce r u
      → SignalsOnce (store_in c b h r name version i bytes now o).0 u
  unfolding store_in
  store_in-SignalsOnce r u name version i bytes now none s = s
  store_in-SignalsOnce r u name version i bytes now (some rec) s = ground (
    arith,
    write_chunk-SignalsOnce r u rec name version i bytes now (Dict.get r.blob_backends rec.kind) s,
  )

  store_each-SignalsOnce :
      (rec : DataRecord) (chunk_bytes : ℕ) (bytes : Bytes) (now : ℕ) (u : String × ℕ) (is : List ℕ)
      (r : DataRegistry c b h)
      → SignalsOnce r u
      → SignalsOnce (store_each c b h rec chunk_bytes bytes now is r).0 u
  unfolding store_each store_chunk
  store_each-SignalsOnce rec chunk_bytes bytes now u [] r s = s
  store_each-SignalsOnce rec chunk_bytes bytes now u (i ∷ is) r s =
      let piece = take chunk_bytes (drop (i * chunk_bytes) bytes) in
      let here =
        store_in-SignalsOnce r u rec.name rec.version i piece now
          (get_record c b h r rec.name rec.version) s in
      ground (arith, here, store_each-SignalsOnce rec chunk_bytes bytes now u is _ here)

  pub delete-SignalsOnce :
      (r : DataRegistry c b h) (u : String × ℕ) (name : String) (version now : ℕ)
      → SignalsOnce r u
      → SignalsOnce (delete c b h r name version now).0 u
  unfolding delete delete_blobs emit SignalsOnce
  delete-SignalsOnce r u name version now s =
      let e : DataEvent = record {
        event_type = data_deleted;
        data_id = name;
        version = version;
        timestamp = now;
      } in
      ground (
        arith,
        signals-append 0 r.emitted e u,
        contains-filter (λ k. not (pair_beq k (name, version))) r.completed_uploads u,
        upload_eq.beq_iff (name, version) u,
        upload_eq.beq_iff u (name, version),
      )

  pub register-SignalsOnce :
      (r : DataRegistry c b h) (u : String × ℕ) (name : String) (version : ℕ) (format kind : String)
      (total_size chunk_bytes now : ℕ) (hash : Option String) (algo : String)
      → SignalsOnce r u
      → SignalsOnce
          (register c b h r name version format kind total_size chunk_bytes now hash algo).0
          u
  unfolding register put_record
  register-SignalsOnce r u name version format kind total_size chunk_bytes now hash algo s =
      elim (Option-cases (total_chunks_for total_size chunk_bytes)) [
        | inl bad ↦ ground (arith)
        | inr (n, good) ↦
            let rec : DataRecord = record {
              name = name;
              version = version;
              alias = name;
              format = format;
              kind = kind;
              total_size = total_size;
              chunk_bytes = chunk_bytes;
              total_chunks = n;
              created_at = now;
              declared_hash = hash;
              content_hash_algo = algo;
            } in
            ground (
              arith,
              after_put-SignalsOnce r u rec (nat_beq n 0) now
                  (c.put r.catalog (full_key name version) rec) s,
            )
      ]

  pub status-SignalsOnce :
      (r : DataRegistry c b h) (u : String × ℕ) (name : String) (version : ℕ)
      → SignalsOnce r u
      → SignalsOnce (status c b h r name version).0 u
  unfolding status cached_hash SignalsOnce
  status-SignalsOnce r u name version s = ground arith

  pub append_chunk-SignalsOnce :
      (r : DataRegistry c b h) (u : String × ℕ) (name : String) (version : ℕ) (bytes : Bytes)
      → SignalsOnce r u
      → SignalsOnce (append_chunk c b h r name version bytes).0 u
  unfolding append_chunk SignalsOnce
  append_chunk-SignalsOnce r u name version bytes s = ground arith

  pub finalize_open-SignalsOnce :
      (r : DataRegistry c b h) (u : String × ℕ) (name : String) (version now : ℕ)
      (o : Option (OpenStream c b h))
      → SignalsOnce r u
      → SignalsOnce (finalize_open c b h r name version now o).0 u
  unfolding finalize_open put_record SignalsOnce
  finalize_open-SignalsOnce r u name version now none s = s
  finalize_open-SignalsOnce r u name version now (some stream) s =
      let popped : DataRegistry c b h = record r {
        open_streams = Dict.pop r.open_streams (name, version);
      } in
      after_put-SignalsOnce popped u _ true now _ s

  pub register_and_store-SignalsOnce :
      (r : DataRegistry c b h) (u : String × ℕ) (name : String) (version : ℕ) (format kind : String)
      (bytes : Bytes) (now chunk_bytes : ℕ) (hash : Option String) (algo : String)
      → SignalsOnce r u
      → SignalsOnce
          (register_and_store c b h r name version format kind bytes now chunk_bytes hash algo).0
          u
  unfolding register_and_store
  register_and_store-SignalsOnce r u name version format kind bytes now chunk_bytes hash algo s =
      let registered =
        register c b h r name version format kind (length bytes) chunk_bytes now hash algo in
      let here =
        register-SignalsOnce r u name version format kind (length bytes) chunk_bytes now hash algo
          s in
      elim (Result-cases registered.1) [
        | inl (e, bad) ↦ ground (arith, here)
        | inr (rec, good) ↦ ground (
          arith,
          here,
          store_each-SignalsOnce rec chunk_bytes bytes now u (range_from 0 rec.total_chunks)
              registered.0 here,
        )
      ]
