-- ===== src/Functions/Registry/Versions.antt =====
-- `register` and `transition` of axo_endpoint/core/functions/registry.py, over a backend that is a map.
use activex_endpoint.Prelude.{
  ℕ, ◌+◌, ◌≤◌, ◌<◌, String, ◌≡◌, refl, ap, ◌∙◌, true, false, Option, none, some, List, [], ◌∷◌,
  ◌++◌, arith, pair_beq, pair_beq_iff, nat_eq, string_eq, Bool-cases, inl, inr,
}
use activex_endpoint.Prelude.Sets.{contains}
use activex_endpoint.Prelude.Outcome.{ok, Result-cases}
use activex_endpoint.Storage.Key.{StorageKey, key_eq}
use activex_endpoint.Storage.Backend.{StorageBackend, IsMap}
use activex_endpoint.Storage.InMemory.Laws.{full_key}
use activex_endpoint.Functions.Lifecycle.{FunctionState, registered, is_valid_transition}
use activex_endpoint.Functions.Params.{ParamSpec}
use activex_endpoint.Functions.Registry.{
  RuntimeSpec, FunctionRecord, FunctionRegistry, EventType, entered, version_of, max_version,
  store_and_emit, with_current, register, transition,
}

version-le-max_version :
    (ks : List StorageKey) (n : String) (v : ℕ)
    → contains ks (full_key n v) ≡ true
    → v ≤ max_version ks
unfolding contains max_version
version-le-max_version [] n v h = ground arith
version-le-max_version (k ∷ ks) n v h =
    ground (arith, key_eq.beq_iff k (full_key n v), ap version_of, version-le-max_version ks n v)

pair-same : (f : String) (v : ℕ) → pair_beq (f, v) (f, v) ≡ true
pair-same f v = (pair_beq_iff (f, v) (f, v)).1 refl

module _ (b : StorageBackend FunctionRecord) where
  store_and_emit-ok :
      {A : Type 0} (r : FunctionRegistry b) (key : StorageKey) (rec : FunctionRecord)
      (ev : EventType) (now : ℕ) (a : A) {x : A}
      → (store_and_emit b r key rec ev now a).1 ≡ ok x
      → ((b.put r.store key rec).1 ≡ ok tt)
        × (x ≡ a)
        × ((store_and_emit b r key rec ev now a).0.store ≡ (b.put r.store key rec).0)
        × ((store_and_emit b r key rec ev now a).0.emitted
            ≡ r.emitted
              ++ record {
                event_type = ev;
                function_id = key.id;
                version = key.version;
                timestamp = now;
              }
                ∷ [])
  unfolding store_and_emit
  store_and_emit-ok r key rec ev now a h = ground arith

module _ (b : StorageBackend FunctionRecord) (m : IsMap b) where
  open m use {IsValid, lookup, get_lem, put_valid, lookup-put, delete_valid, lookup-delete, listed}

  -- `r'` holds `x` under `f` and `v`, and otherwise what `r` holds; one event more was emitted.
  pub record Writes (r r' : FunctionRegistry b) (f : String) (v : ℕ) (x : FunctionRecord)
      (ev : EventType) (now : ℕ) : Type 0 where
    pub written : lookup r'.store f v ≡ some x
    pub kept :
        (g : String) (w : ℕ)
        → pair_beq (f, v) (g, w) ≡ false
        → lookup r'.store g w ≡ lookup r.store g w
    pub valid : IsValid r'.store
    pub told :
        r'.emitted
        ≡ r.emitted
          ++ record { event_type = ev; function_id = f; version = some v; timestamp = now } ∷ []

  store_and_emit-Writes :
      {A : Type 0} (r : FunctionRegistry b) (f : String) (v : ℕ) (rec : FunctionRecord)
      (ev : EventType) (now : ℕ) (a : A) {x : A}
      → IsValid r.store
      → (store_and_emit b r (full_key f v) rec ev now a).1 ≡ ok x
      → Writes r (store_and_emit b r (full_key f v) rec ev now a).0 f v rec ev now
  store_and_emit-Writes r f v rec ev now a ok_store h =
      let (stored, _, same, told) = store_and_emit-ok b r (full_key f v) rec ev now a h in
      record {
        written = rw same (lookup-put r.store f f v v rec ok_store stored ∙ rw (pair-same f v));
        kept = λ g w apart. rw same (lookup-put r.store f g v w rec ok_store stored ∙ rw apart);
        valid = rw same (put_valid r.store f v rec ok_store);
        told = told;
      }

  -- In a valid store, a registration that succeeds returns a key of the function with a version above every stored
  -- version of it, stores the code there as a registered function, keeps every other function and
  -- version, and emits one event.
  pub register_lem :
      (r : FunctionRegistry b) (f name : String) (code : List ℕ) (now : ℕ)
      (spec : Option RuntimeSpec) (format : String) (schema : Option (List ParamSpec))
      {key : StorageKey}
      → IsValid r.store
      → (register b r f name code now spec format schema).1 ≡ ok key
      → (v : ℕ) × (x : FunctionRecord) × (key ≡ full_key f v)
        × ((w : ℕ) (y : FunctionRecord) → lookup r.store f w ≡ some y → w < v)
        × (x.code ≡ code)
        × (x.state ≡ registered)
        × Writes r
            (register b r f name code now spec format schema).0
            f
            v
            x
            (entered registered)
            now
  unfolding register
  register_lem r f name code now spec format schema valid h =
      elim (Result-cases (b.list_versions r.store f)) [
        | inl (e, bad) ↦ absurd (ground arith)
        | inr (ks, listing) ↦
            let v = max_version ks + 1 in
            let x : FunctionRecord = record {
              code = code;
              function_id = f;
              name = name;
              version = v;
              created_at = now;
              state = registered;
              runtime_spec = spec;
              code_format = format;
              params_schema = schema;
            } in
            let h' : (store_and_emit b r (full_key f v) x (entered registered) now (full_key f v)).1
                ≡ ok _ =
              rw (listing, register) at h in
            rw (listing, register)
              (
                v,
                x,
                (store_and_emit-ok b r (full_key f v) x (entered registered) now (full_key f v)
                    h').1,
                λ w y found.
                    let seen = listed r.store f w ks y valid listing found in
                    omega (arith, version-le-max_version ks f w seen),
                refl,
                refl,
                store_and_emit-Writes r f v x (entered registered) now (full_key f v) valid h',
              )
      ]

  -- In a valid store, a change of state that succeeds was allowed from the state that was stored, and changes only the
  -- state of that function version.
  pub transition_lem :
      (r : FunctionRegistry b) (f : String) (v : ℕ) (to : FunctionState) (now : ℕ)
      {x : FunctionRecord}
      → IsValid r.store
      → (transition b r (full_key f v) to now).1 ≡ ok x
      → (current : FunctionRecord) × (lookup r.store f v ≡ some current)
        × (is_valid_transition current.state to ≡ true)
        × Writes r
            (transition b r (full_key f v) to now).0
            f
            v
            (record current { state = to })
            (entered to)
            now
  unfolding transition with_current
  transition_lem r f v to now {x} valid h = by_current (lookup r.store f v) refl
    where
      by_current :
          (o : Option FunctionRecord)
          → lookup r.store f v ≡ o
          → (current : FunctionRecord) × (lookup r.store f v ≡ some current)
            × (is_valid_transition current.state to ≡ true)
            × Writes r
                (transition b r (full_key f v) to now).0
                f
                v
                (record current { state = to })
                (entered to)
                now
      by_current none e = absurd (ground (arith, get_lem r.store f v valid))
      by_current (some current) e =
          let got : b.get r.store (full_key f v) ≡ ok (some current) =
            get_lem r.store f v valid ∙ ap ok e in
          elim (Bool-cases (is_valid_transition current.state to)) [
            | inl allowed ↦
                let updated = record current { state = to } in
                let h' : (store_and_emit b r (full_key f v) updated (entered to) now updated).1
                    ≡ ok x =
                  ground arith in
                (
                  current,
                  e,
                  allowed,
                  rw (got, transition, with_current)
                      (rw allowed
                        (store_and_emit-Writes r f v updated (entered to) now updated valid h')),
                )
            | inr refused ↦ absurd (ground arith)
          ]
