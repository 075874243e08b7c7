-- ===== src/Functions/Registry/Histories.antt =====
-- The states of what the registry of axo_endpoint/core/functions/registry.py stores.
use activex_endpoint.Prelude.{ℕ, String, ◌≡◌, Option, some, List, [], ◌∷◌, string_eq, nat_eq}
use activex_endpoint.Prelude.Dict.{Dict}
use activex_endpoint.Storage.InMemory.Laws.{full_key}
use activex_endpoint.Storage.Backend.{StorageBackend, IsMap, WritesGoThrough}
use activex_endpoint.Functions.Lifecycle.{FunctionState}
use activex_endpoint.Functions.Lifecycle.Runs.{Run}
use activex_endpoint.Functions.Params.{ParamSpec}
use activex_endpoint.Functions.Registry.{
  RuntimeSpec, FunctionRecord, FunctionRegistry, register, transition, update, delete,
}

-- A call of the registry, at a time.
pub data RegistryCall : Type 0 where
  registers :
      String
      → String
      → List ℕ
      → Option RuntimeSpec
      → String
      → Option (List ParamSpec)
      → RegistryCall
  moves : String → ℕ → FunctionState → RegistryCall
  updates : String → ℕ → List ParamSpec → Dict String String → RegistryCall
  deletes : String → ℕ → RegistryCall

module _ (b : StorageBackend FunctionRecord) where
  unfoldable pub make : FunctionRegistry b → RegistryCall → ℕ → FunctionRegistry b
  make r (registers f name code spec format schema) now =
      (register b r f name code now spec format schema).0
  make r (moves f v to) now = (transition b r (full_key f v) to now).0
  make r (updates f v schema env) now = (update b r (full_key f v) now schema env).0
  make r (deletes f v) now = (delete b r (full_key f v) now).0

  unfoldable pub make_all : FunctionRegistry b → List (RegistryCall × ℕ) → FunctionRegistry b
  make_all r [] = r
  make_all r ((c, now) ∷ calls) = make_all (make r c now) calls

module _ (b : StorageBackend FunctionRecord) (m : IsMap b) (t : WritesGoThrough b m) where
  open m use {IsValid, lookup, get_lem, put_valid, lookup-put, delete_valid, lookup-delete}

  -- Every stored version came to its state by allowed changes.
  pub record IsLived (s : b.Store) : Type 0 where
    pub valid : IsValid s
    pub lived : (f : String) (v : ℕ) (x : FunctionRecord) → lookup s f v ≡ some x → Run x.state
