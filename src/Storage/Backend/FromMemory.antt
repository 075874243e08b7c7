-- ===== src/Storage/Backend/FromMemory.antt =====
-- The in-memory backend as a storage backend.
use activex_endpoint.Prelude.{
  ℕ, String, ◌≡◌, refl, ap, subst, true, Option, none, some, List, [], ◌∷◌, if◌then◌else◌, arith,
  ◌==◌, string_eq, pair_beq, nat_eq,
}
use activex_endpoint.Prelude.Dict
use activex_endpoint.Prelude.Dict.{Dict, keys}
use activex_endpoint.Prelude.Sets.{contains, contains-filter}
use activex_endpoint.Prelude.Outcome.{Result, ok, err}
use activex_endpoint.Storage.Key.{StorageKey, key_eq}
use activex_endpoint.Storage.InMemory.{InMemoryStorageBackend, Found, found, key_error}
use activex_endpoint.Storage.InMemory
use activex_endpoint.Storage.InMemory.Laws.{
  full_key, IsIndexed, put-IsIndexed, delete-IsIndexed, get_full_key, full_key-beq,
}
use activex_endpoint.Storage.Backend.{StorageBackend, IsMap, WritesGoThrough}

abbrev pub result_of : {V : Type 0} → Found V → Result (Unit {0}) (Option V)
result_of (found o) = ok o
result_of key_error = err tt

abbrev pub in_memory : (V : Type 0) → StorageBackend V
in_memory V = record {
  Store = InMemoryStorageBackend V;
  Error = Unit;
  put = λ s k x. (InMemory.put s k x, ok tt);
  get = λ s k. result_of (InMemory.get s k);
  delete = λ s k. (InMemory.delete s k, ok tt);
  list_versions = λ s n. ok (InMemory.list_versions s n);
}

key-listed :
    {V : Type 0} (d : Dict StorageKey V) (k : StorageKey) (x : V)
    → Dict.get d k ≡ some x
    → contains (keys d) k ≡ true
unfolding Dict.get contains
key-listed [] k x h = absurd (ground arith)
key-listed ((j, y) ∷ d) k x h = ground (arith, key-listed d k x)

pub get-stored :
    {V : Type 0} (s : InMemoryStorageBackend V) (n m : String) (v w : ℕ) (x : V)
    → Dict.get (InMemory.put s (full_key n v) x).storage (full_key m w)
      ≡ (if pair_beq (n, v) (m, w) then some x else Dict.get s.storage (full_key m w))
unfolding InMemory.put
get-stored s n m v w x =
    ground (arith, Dict.get-put s.storage (full_key n v) (full_key m w) x, full_key-beq n m v w)

pub get-removed :
    {V : Type 0} (s : InMemoryStorageBackend V) (n m : String) (v w : ℕ)
    → Dict.get (InMemory.delete s (full_key n v)).storage (full_key m w)
      ≡ (if pair_beq (n, v) (m, w) then none else Dict.get s.storage (full_key m w))
unfolding InMemory.delete
get-removed s n m v w =
    ground (arith, Dict.get-pop s.storage (full_key n v) (full_key m w), full_key-beq n m v w)

pub version-listed :
    {V : Type 0} (s : InMemoryStorageBackend V) (n : String) (v : ℕ) (x : V)
    → Dict.get s.storage (full_key n v) ≡ some x
    → contains (InMemory.list_versions s n) (full_key n v) ≡ true
unfolding InMemory.list_versions
version-listed s n v x there = ground (
  arith,
  contains-filter (λ (k : StorageKey). k.id == n) (keys s.storage) (full_key n v),
  key-listed s.storage (full_key n v) x there,
  string_eq.beq_iff n n,
)

abbrev pub the_ok : (E : Type 0) → List StorageKey → Result E (List StorageKey)
the_ok E ks = ok ks

pub ok-ks : {E : Type 0} {ks js : List StorageKey} → the_ok E ks ≡ ok js → ks ≡ js
ok-ks h = ground arith

abbrev pub in_memory-IsMap : (V : Type 0) → IsMap (in_memory V)
in_memory-IsMap V = record {
  IsValid = IsIndexed;
  lookup = λ s n v. Dict.get s.storage (full_key n v);
  get_lem = λ s n v valid. ap result_of (get_full_key s n v valid);
  put_valid = λ s n v x valid. put-IsIndexed s n v x valid;
  lookup-put = λ s n m v w x valid done. get-stored s n m v w x;
  delete_valid = λ s n v valid. delete-IsIndexed s n v valid;
  lookup-delete = λ s n m v w valid done. get-removed s n m v w;
  listed = λ s n v ks x valid h there.
      subst (λ js. contains js (full_key n v) ≡ true) (ok-ks h) (version-listed s n v x there);
}

abbrev pub in_memory-WritesGoThrough :
    (V : Type 0) → WritesGoThrough (in_memory V) (in_memory-IsMap V)
in_memory-WritesGoThrough V = record { put_ok = λ s n v x h. refl; delete_ok = λ s n v h. refl }
