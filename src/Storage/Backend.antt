-- ===== src/Storage/Backend.antt =====
-- `StorageBackend` of axo_endpoint/core/storage/backend.py: the operations that the registries call,
-- and what they rely on. An operation returns the store it leaves beside its result.
pub mod FromMemory
use activex_endpoint.Prelude.{
  ℕ, String, ◌≡◌, Option, none, Bool, List, if◌then◌else◌, pair_beq, nat_eq, string_eq,
}
use activex_endpoint.Prelude.Outcome.{Result, ok, err}
use activex_endpoint.Prelude.Sets.{contains}
use activex_endpoint.Storage.Key.{StorageKey, key_eq}
use activex_endpoint.Storage.InMemory.Laws.{full_key}

pub record StorageBackend (V : Type 0) : Type 1 where
  pub Store : Type 0
  pub Error : Type 0
  pub put : Store → StorageKey → V → Store × Result Error (Unit {0})
  pub get : Store → StorageKey → Result Error (Option V)
  pub delete : Store → StorageKey → Store × Result Error (Unit {0})
  pub list_versions : Store → String → Result Error (List StorageKey)

-- A backend is a map from names and versions, on the keys that the registries use.
pub record IsMap {V : Type 0} (b : StorageBackend V) : Type 1 where
  pub IsValid : b.Store → Type 0
  pub lookup : b.Store → String → ℕ → Option V
  pub get_lem :
      (s : b.Store) (n : String) (v : ℕ) → IsValid s → b.get s (full_key n v) ≡ ok (lookup s n v)
  pub put_valid :
      (s : b.Store) (n : String) (v : ℕ) (x : V) → IsValid s → IsValid (b.put s (full_key n v) x).0
  pub lookup-put :
      (s : b.Store) (n m : String) (v w : ℕ) (x : V)
      → IsValid s
      → (b.put s (full_key n v) x).1 ≡ ok tt
      → lookup (b.put s (full_key n v) x).0 m w
        ≡ (if pair_beq (n, v) (m, w) then Option.some x else lookup s m w)
  pub delete_valid :
      (s : b.Store) (n : String) (v : ℕ) → IsValid s → IsValid (b.delete s (full_key n v)).0
  pub lookup-delete :
      (s : b.Store) (n m : String) (v w : ℕ)
      → IsValid s
      → (b.delete s (full_key n v)).1 ≡ ok tt
      → lookup (b.delete s (full_key n v)).0 m w
        ≡ (if pair_beq (n, v) (m, w) then none else lookup s m w)
  -- `list_versions` leaves out no stored version.
  pub listed :
      (s : b.Store) (n : String) (v : ℕ) (ks : List StorageKey) (x : V)
      → IsValid s
      → b.list_versions s n ≡ ok ks
      → lookup s n v ≡ Option.some x
      → contains ks (full_key n v) ≡ Bool.true

-- The writes to a valid store go through.
pub record WritesGoThrough {V : Type 0} (b : StorageBackend V) (m : IsMap b) : Type 0 where
  pub put_ok :
      (s : b.Store) (n : String) (v : ℕ) (x : V)
      → m.IsValid s
      → (b.put s (full_key n v) x).1 ≡ ok tt
  pub delete_ok :
      (s : b.Store) (n : String) (v : ℕ) → m.IsValid s → (b.delete s (full_key n v)).1 ≡ ok tt
