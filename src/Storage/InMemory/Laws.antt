-- ===== src/Storage/InMemory/Laws.antt =====
-- The index of the in-memory backend, on the keys that the registries use: a name, a version, and
-- the name again as the alias.
use activex_endpoint.Prelude.{
  ℕ, String, ◌≡◌, refl, Option, none, some, if◌then◌else◌, arith, nat_eq, string_eq, option_eq,
  pair_eq, pair_beq, pair_beq_iff,
}
use activex_endpoint.Prelude.Dict
use activex_endpoint.Prelude.Dict.{Dict}
use activex_endpoint.Storage.Key.{StorageKey, key_eq, key_beq}
use activex_endpoint.Storage.InMemory.{InMemoryStorageBackend, found, init, put, delete, fetch, get}

-- `StorageKey(id=name, version=version, alias=name)`
abbrev pub full_key : String → ℕ → StorageKey
full_key name version = record { id = name; version = some version; alias = some name }

pub full_key-beq :
    (n m : String) (v w : ℕ) → key_beq (full_key n v) (full_key m w) ≡ pair_beq (n, v) (m, w)
full_key-beq n m v w = ground (arith, string_eq.beq_iff n m)

module _ {ℓ} {V : Type ℓ} where
  abbrev indexed : Option V → String → ℕ → Option StorageKey
  indexed none name version = none
  indexed (some _) name version = some (full_key name version)

  -- The index has exactly the keys that are stored.
  pub record IsIndexed (b : InMemoryStorageBackend V) : Type ℓ where
    pub by_alias :
        (name : String) (version : ℕ)
        → Dict.get b.by_alias_version (name, version)
          ≡ indexed (Dict.get b.storage (full_key name version)) name version

  pub init-IsIndexed : IsIndexed (init {V = V})
  unfolding Dict.get
  init-IsIndexed = record { by_alias = λ n v. refl }

  put-index :
      (b : InMemoryStorageBackend V) (n m : String) (v w : ℕ) (x : V)
      → Dict.get b.by_alias_version (m, w) ≡ indexed (Dict.get b.storage (full_key m w)) m w
      → Dict.get (put b (full_key n v) x).by_alias_version (m, w)
        ≡ indexed (Dict.get (put b (full_key n v) x).storage (full_key m w)) m w
  unfolding put
  put-index b n m v w x h = ground (
    arith,
    Dict.get-put b.storage (full_key n v) (full_key m w) x,
    Dict.get-put b.by_alias_version (n, v) (m, w) (full_key n v),
    full_key-beq n m v w,
    pair_beq_iff ⦃e = string_eq⦄ ⦃d = nat_eq⦄ (n, v) (m, w),
    h,
  )

  -- A put keeps the index exact.
  pub put-IsIndexed :
      (b : InMemoryStorageBackend V) (name : String) (version : ℕ) (x : V)
      → IsIndexed b
      → IsIndexed (put b (full_key name version) x)
  put-IsIndexed b n v x h = record { by_alias = λ m w. put-index b n m v w x (h.by_alias m w) }

  delete-index :
      (b : InMemoryStorageBackend V) (n m : String) (v w : ℕ)
      → Dict.get b.by_alias_version (m, w) ≡ indexed (Dict.get b.storage (full_key m w)) m w
      → Dict.get (delete b (full_key n v)).by_alias_version (m, w)
        ≡ indexed (Dict.get (delete b (full_key n v)).storage (full_key m w)) m w
  unfolding delete
  delete-index b n m v w h = ground (
    arith,
    Dict.get-pop b.storage (full_key n v) (full_key m w),
    Dict.get-pop b.by_alias_version (n, v) (m, w),
    full_key-beq n m v w,
    h,
  )

  pub delete-IsIndexed :
      (b : InMemoryStorageBackend V) (name : String) (version : ℕ)
      → IsIndexed b
      → IsIndexed (delete b (full_key name version))
  delete-IsIndexed b n v h = record { by_alias = λ m w. delete-index b n m v w (h.by_alias m w) }

  -- A lookup through the index reads the storage and meets no stale entry.
  pub get_full_key :
      (b : InMemoryStorageBackend V) (name : String) (version : ℕ)
      → IsIndexed b
      → get b (full_key name version) ≡ found (Dict.get b.storage (full_key name version))
  unfolding get fetch
  get_full_key b n v h = ground (arith, h.by_alias n v)

  -- While the index is exact, a put is read back under its name and version, and under no other.
  pub get-put_full_key :
      (b : InMemoryStorageBackend V) (n m : String) (v w : ℕ) (x : V)
      → IsIndexed b
      → get (put b (full_key n v) x) (full_key m w)
        ≡ (if pair_beq (n, v) (m, w) then found (some x) else get b (full_key m w))
  get-put_full_key b n m v w x h =
      rw (get_full_key (put b (full_key n v) x) m w (put-IsIndexed b n v x h), get_full_key b m w h)
        (unfold put in
          ground
            (arith, Dict.get-put b.storage (full_key n v) (full_key m w) x, full_key-beq n m v w))

  -- While the index is exact, a deleted entry is gone, and no other is.
  pub get-delete_full_key :
      (b : InMemoryStorageBackend V) (n m : String) (v w : ℕ)
      → IsIndexed b
      → get (delete b (full_key n v)) (full_key m w)
        ≡ (if pair_beq (n, v) (m, w) then found none else get b (full_key m w))
  get-delete_full_key b n m v w h =
      rw
        (
          get_full_key (delete b (full_key n v)) m w (delete-IsIndexed b n v h),
          get_full_key b m w h,
        )
        (unfold delete in
          ground
            (arith, Dict.get-pop b.storage (full_key n v) (full_key m w), full_key-beq n m v w))
