-- ===== src/Storage/InMemory.antt =====
-- `InMemoryStorageBackend` of axo_endpoint/core/storage/in_memory.py: the values by key, and two
-- indexes. A `KeyError` on a stale index is `none` where a lookup has `some`.
pub mod Laws
use activex_endpoint.Prelude.{
  ℕ, String, Bool, true, false, Option, none, some, List, [], ◌∷◌, leb, if◌then◌else◌, filter, Eq,
  ◌==◌, nat_eq, string_eq, option_eq, pair_eq,
}
use activex_endpoint.Prelude.Dict
use activex_endpoint.Prelude.Dict.{Dict, keys, values}
use activex_endpoint.Storage.Key.{StorageKey, key_eq}

pub record InMemoryStorageBackend {ℓ} (V : Type ℓ) : Type ℓ where
  pub storage : Dict StorageKey V
  pub by_id_version : Dict (String × ℕ) StorageKey
  pub by_alias_version : Dict (String × ℕ) StorageKey

-- What a lookup gives, or the `KeyError` of a stale index entry.
pub data Found {ℓ} (V : Type ℓ) : Type ℓ where
  found : Option V → Found V
  key_error : Found V

abbrev version_or_zero : StorageKey → ℕ
version_or_zero k = elim k.version [ none ↦ 0 | some v ↦ v ]

-- `max(keys, key=lambda k: k.version or 0)`: the first of the greatest.
unfoldable pub latest : StorageKey → List StorageKey → StorageKey
latest best [] = best
latest best (k ∷ ks) =
    latest (if leb (version_or_zero k) (version_or_zero best) then best else k) ks

module _ {ℓ} {V : Type ℓ} where
  abbrev pub init : InMemoryStorageBackend V
  init = record { storage = []; by_id_version = []; by_alias_version = [] }

  unfoldable pub put : InMemoryStorageBackend V → StorageKey → V → InMemoryStorageBackend V
  put b key value = elim key.version [
    | none ↦ record b { storage = Dict.put b.storage key value }
    | some version ↦ record {
      storage = Dict.put b.storage key value;
      by_id_version = Dict.put b.by_id_version (key.id, version) key;
      by_alias_version = (elim key.alias [
        | none ↦ b.by_alias_version
        | some alias ↦ Dict.put b.by_alias_version (alias, version) key
      ]);
    }
  ]

  unfoldable pub delete : InMemoryStorageBackend V → StorageKey → InMemoryStorageBackend V
  delete b key = elim key.version [
    | none ↦ record b { storage = Dict.pop b.storage key }
    | some version ↦ record {
      storage = Dict.pop b.storage key;
      by_id_version = Dict.pop b.by_id_version (key.id, version);
      by_alias_version = (elim key.alias [
        | none ↦ b.by_alias_version
        | some alias ↦ Dict.pop b.by_alias_version (alias, version)
      ]);
    }
  ]

  unfoldable pub list_versions : InMemoryStorageBackend V → String → List StorageKey
  list_versions b id = filter (λ k. k.id == id) (keys b.storage)

  -- `self._storage[key]`
  unfoldable pub fetch : InMemoryStorageBackend V → StorageKey → Found V
  fetch b key = elim (Dict.get b.storage key) [ none ↦ key_error | some v ↦ found (some v) ]

  fetch_latest : InMemoryStorageBackend V → List StorageKey → Found V
  unfolding fetch latest
  fetch_latest b [] = found none
  fetch_latest b (k ∷ ks) = fetch b (latest k ks)

  unfoldable pub get_by_id : InMemoryStorageBackend V → String → Found V
  unfolding fetch_latest
  get_by_id b id = fetch_latest b (filter (λ k. k.id == id) (keys b.storage))

  unfoldable pub get_by_id_version : InMemoryStorageBackend V → String → ℕ → Found V
  get_by_id_version b id version = elim (Dict.get b.by_id_version (id, version)) [
    | none ↦ found none
    | some key ↦ fetch b key
  ]

  unfoldable pub get_by_alias : InMemoryStorageBackend V → String → Found V
  unfolding fetch_latest
  get_by_alias b alias = fetch_latest b (filter (λ k. k.alias == some alias) (keys b.storage))

  unfoldable pub get_by_alias_version : InMemoryStorageBackend V → String → ℕ → Found V
  get_by_alias_version b alias version = elim (Dict.get b.by_alias_version (alias, version)) [
    | none ↦ found none
    | some key ↦ fetch b key
  ]

  unfoldable pub get : InMemoryStorageBackend V → StorageKey → Found V
  unfolding get_by_id get_by_id_version get_by_alias get_by_alias_version
  get b key = elim key.version [
    | some version ↦ elim key.alias [
      | some alias ↦ get_by_alias_version b alias version
      | none ↦ get_by_id_version b key.id version
    ]
    | none ↦ elim key.alias [ some alias ↦ get_by_alias b alias | none ↦ get_by_id b key.id ]
  ]

  unfoldable pub list_values : InMemoryStorageBackend V → List V
  list_values b = values b.storage
