-- ===== src/Data/Requests/Adhoc.antt =====
-- Values that a function writes and reads through protocol.py under locations of its own.
use activex_endpoint.Prelude.{String, ◌≡◌, some, string_eq}
use activex_endpoint.Prelude.Dict
use activex_endpoint.Prelude.Outcome.{ok}
use activex_endpoint.Data.Models.{Bytes, BlobBackend}

-- A value that was put into a chunk backend is there.
pub record KeepsValues (b : BlobBackend) : Type 0 where
  pub get-put :
      (s : b.Store) (k : String) (v : Bytes)
      → (b.put s k v).1 ≡ ok tt
      → b.get (b.put s k v).0 k ≡ ok (some v)
