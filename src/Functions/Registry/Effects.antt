-- ===== src/Functions/Registry/Effects.antt =====
-- What the operations of axo_endpoint/core/functions/registry.py leave in the store and tell the
-- event bus.
use activex_endpoint.Prelude.{
  ℕ, ◌+◌, String, ◌≡◌, refl, ap, ◌∙◌, ◌⊎◌, inl, inr, Option, none, some, List, [], ◌∷◌, ◌++◌,
  string_eq, pair_beq, nat_eq, Option-cases, if◌then◌else◌,
}
use activex_endpoint.Prelude.Dict.{Dict}
use activex_endpoint.Prelude.Outcome.{ok, Result-cases}
use activex_endpoint.Storage.InMemory.Laws.{full_key}
use activex_endpoint.Storage.Backend.{StorageBackend, IsMap, WritesGoThrough}
use activex_endpoint.Functions.Lifecycle.{registered}
use activex_endpoint.Functions.Params.{ParamSpec}
use activex_endpoint.Functions.Registry.{
  RuntimeSpec, FunctionRecord, FunctionRegistry, Event, EventType, entered, function_updated,
  function_deleted, store_and_emit, with_current, max_version, register, update, delete,
}

-- What an event of a change says of the version.
abbrev pub Tells : EventType → Option FunctionRecord → Type 0
Tells ev o =
    ((ev ≡ function_deleted) × (o ≡ none))
    ⊎ ((x : FunctionRecord) × (o ≡ some x) × ((ev ≡ entered registered) ⊎ (ev ≡ function_updated)))

abbrev pub event_of : EventType → String → ℕ → ℕ → Event
event_of ev f v now = record { event_type = ev; function_id = f; version = some v; timestamp = now }

module _ (b : StorageBackend FunctionRecord) (m : IsMap b) where
  open m use {IsValid, lookup, get_lem, put_valid, lookup-put, delete_valid, lookup-delete}

  -- `r'` is `r` with `o` as the version `v` of `f`, and has told one event of it.
  pub record Changes (r r' : FunctionRegistry b) (now : ℕ) : Type 0 where
    pub function_id : String
    pub version : ℕ
    pub value : Option FunctionRecord
    pub event : EventType
    pub tells : Tells event value
    pub holds :
        (g : String) (u : ℕ)
        → lookup r'.store g u
          ≡ (if pair_beq (function_id, version) (g, u) then value else lookup r.store g u)
    pub valid : IsValid r'.store
    pub told : r'.emitted ≡ r.emitted ++ event_of event function_id version now ∷ []

  abbrev pub Effect : FunctionRegistry b → FunctionRegistry b → ℕ → Type 0
  Effect r r' now = (r' ≡ r) ⊎ Changes r r' now

  module _ (t : WritesGoThrough b m) where
    store_and_emit-Changes :
        {A : Type 0} (r : FunctionRegistry b) (f : String) (v : ℕ) (x : FunctionRecord)
        (ev : EventType) (now : ℕ) (a : A)
        → IsValid r.store
        → (ev ≡ entered registered) ⊎ (ev ≡ function_updated)
        → Changes r (store_and_emit b r (full_key f v) x ev now a).0 now
    unfolding store_and_emit
    store_and_emit-Changes r f v x ev now a valid told =
        let put_ok = t.put_ok r.store f v x valid in
        record {
          function_id = f;
          version = v;
          value = some x;
          event = ev;
          tells = inr (x, refl, told);
          holds = λ g u. rw (put_ok, store_and_emit) (lookup-put r.store f g v u x valid put_ok);
          valid = rw (put_ok, store_and_emit) (put_valid r.store f v x valid);
          told = rw (put_ok, store_and_emit);
        }

    pub register-Effect :
        (r : FunctionRegistry b) (f name : String) (code : List ℕ) (now : ℕ)
        (spec : Option RuntimeSpec) (format : String) (schema : Option (List ParamSpec))
        → IsValid r.store
        → Effect r (register b r f name code now spec format schema).0 now
    unfolding register
    register-Effect r f name code now spec format schema valid =
        elim (Result-cases (b.list_versions r.store f)) [
          | inl (e, bad) ↦ inl (rw (bad, register))
          | inr (ks, listing) ↦ inr (
              rw (listing, register)
                (store_and_emit-Changes r f (max_version ks + 1) _ (entered registered) now _ valid
                  (inl refl)))
        ]

    pub update-Effect :
        (r : FunctionRegistry b) (f : String) (v now : ℕ) (schema : List ParamSpec)
        (env : Dict String String)
        → IsValid r.store
        → Effect r (update b r (full_key f v) now schema env).0 now
    unfolding update with_current
    update-Effect r f v now schema env valid = elim (Option-cases (lookup r.store f v)) [
      | inl none_there ↦
          inl (rw (get_lem r.store f v valid ∙ ap ok none_there, update, with_current))
      | inr (x, there) ↦ inr (
          rw (get_lem r.store f v valid ∙ ap ok there, update, with_current)
            (store_and_emit-Changes r f v _ function_updated now _ valid (inr refl)))
    ]

    pub delete-Effect :
        (r : FunctionRegistry b) (f : String) (v now : ℕ)
        → IsValid r.store
        → Effect r (delete b r (full_key f v) now).0 now
    unfolding delete with_current
    delete-Effect r f v now valid = elim (Option-cases (lookup r.store f v)) [
      | inl none_there ↦
          inl (rw (get_lem r.store f v valid ∙ ap ok none_there, delete, with_current))
      | inr (x, there) ↦
          let gone = t.delete_ok r.store f v valid in
          let result : (delete b r (full_key f v) now).0 ≡ record {
            store = (b.delete r.store (full_key f v)).0;
            emitted = r.emitted ++ event_of function_deleted f v now ∷ [];
          } =
            rw (get_lem r.store f v valid ∙ ap ok there, delete, with_current) (rw gone) in
          inr (record {
            function_id = f;
            version = v;
            value = none;
            event = function_deleted;
            tells = inl (refl, refl);
            holds = λ g u. rw result (lookup-delete r.store f g v u valid gone);
            valid = rw result (delete_valid r.store f v valid);
            told = rw result;
          })
    ]
