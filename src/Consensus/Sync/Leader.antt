-- ===== src/Consensus/Sync/Leader.antt =====
-- The leader's side of axo_endpoint/core/consensus/registry_sync.py: a call of the function registry
-- of axo_endpoint/core/functions/registry.py, and the bridge that its events go to.
use activex_endpoint.Prelude.{ℕ, String, Option, List, [], ◌∷◌, length, drop, string_eq, nat_eq}
use activex_endpoint.Prelude.Dict.{Dict}
use activex_endpoint.Storage.InMemory.Laws.{full_key}
use activex_endpoint.Storage.Backend.{StorageBackend}
use activex_endpoint.Functions.Params.{ParamSpec}
use activex_endpoint.Functions.Registry
use activex_endpoint.Functions.Registry.{
  RuntimeSpec, FunctionRecord, FunctionRegistry, Event, EventType, entered, function_updated,
  function_deleted,
}
use activex_endpoint.Consensus.DirtyTracker.{DirtyTracker}
use activex_endpoint.Consensus.Sync.{WireLib}
use activex_endpoint.Consensus.Sync.Functions.{deliver}

-- A call of the leader's registry, with the time of the call.
pub data Call : Type 0 where
  register :
      (function_id name : String) (code : List ℕ) (runtime_spec : Option RuntimeSpec)
      (code_format : String) (params_schema : Option (List ParamSpec)) (now : ℕ)
      → Call
  update :
      (function_id : String) (version : ℕ) (params_schema : List ParamSpec)
      (env_vars : Dict String String) (now : ℕ)
      → Call
  delete : (function_id : String) (version now : ℕ) → Call

abbrev pub time : Call → ℕ
time (Call.register f name code spec format schema now) = now
time (Call.update f v schema env now) = now
time (Call.delete f v now) = now

module _ (b : StorageBackend FunctionRecord) where
  unfoldable pub perform : FunctionRegistry b → Call → FunctionRegistry b
  perform r (Call.register f name code spec format schema now) =
      (Registry.register b r f name code now spec format schema).0
  perform r (Call.update f v schema env now) = (Registry.update b r (full_key f v) now schema env).0
  perform r (Call.delete f v now) = (Registry.delete b r (full_key f v) now).0

  -- The leader's registry and tracker.
  pub record Leader : Type 0 where
    pub registry : FunctionRegistry b
    pub tracker : DirtyTracker

  module _ (w : WireLib) where
    unfoldable pub deliver_all : FunctionRegistry b → DirtyTracker → List Event → ℕ → DirtyTracker
    deliver_all r t [] now = t
    deliver_all r t (event ∷ events) now = deliver_all r (deliver b w r t event now) events now

    -- A call, and the events that it emits, each delivered to the bridge.
    unfoldable pub call : Leader → Call → Leader
    unfolding perform deliver_all
    call l c =
        let r = perform l.registry c in
        record {
          registry = r;
          tracker = deliver_all r l.tracker (drop (length l.registry.emitted) r.emitted) (time c);
        }

    unfoldable pub call_all : Leader → List Call → Leader
    call_all l [] = l
    call_all l (c ∷ calls) = call_all (call l c) calls
