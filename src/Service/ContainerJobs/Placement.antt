-- ===== src/Service/ContainerJobs/Placement.antt =====
-- `_resolve_placement` of axo_endpoint/service/runtime/container_runtime.py.
use activex_endpoint.Prelude.{
  ℕ, String, Option, none, some, List, [], ◌∷◌, if◌then◌else◌, ◌==◌, nat_eq, string_eq, option_eq,
}
use activex_endpoint.Prelude.Outcome.{Result, ok, err}
use activex_endpoint.Consensus.Ledger.{SlotDecision, granted, place, retry}
use activex_endpoint.Service.ContainerJobs.{ContainerHandle, RuntimeError, invocation, Runtime}

-- The summoner, the leader and the peers, as `_resolve_placement` asks them for one job.
pub record Surroundings : Type 0 where
  pub self_id : String
  pub find_idle : Option ContainerHandle
  pub request_growth : Result String SlotDecision
  pub summon_at : ℕ → Result String ContainerHandle
  pub least_busy : Option ContainerHandle
  pub forward_job : String → Result String (Unit {0})

-- What was done to place a job: a handle of this endpoint, or `none` where it was forwarded.
pub record Placed : Type 0 where
  pub runtime : Runtime
  pub forwarded_to : List String
  pub result : Result RuntimeError (Option ContainerHandle)

unfoldable pub on_summoned : Runtime → String → ℕ → ℕ → Result String ContainerHandle → Placed
on_summoned rt function_id version slot_index (ok handle) = record {
  runtime = rt;
  forwarded_to = [];
  result = ok (some handle);
}
on_summoned rt function_id version slot_index (err e) = record {
  runtime = record rt { released = (function_id, version, slot_index) ∷ rt.released };
  forwarded_to = [];
  result = err (invocation e);
}

unfoldable pub on_forwarded : Runtime → String → Result String (Unit {0}) → Placed
on_forwarded rt target (ok _) = record {
  runtime = rt;
  forwarded_to = target ∷ [];
  result = ok none;
}
on_forwarded rt target (err e) = record {
  runtime = rt;
  forwarded_to = [];
  result = err (invocation e);
}

unfoldable pub on_decision : Runtime → Surroundings → String → ℕ → SlotDecision → Placed
unfolding on_summoned on_forwarded
on_decision rt env function_id version retry = record {
  runtime = rt;
  forwarded_to = [];
  result = err (invocation "cluster concurrency ledger is mid-reconciliation, retry shortly");
}
on_decision rt env function_id version (granted slot_index) =
    on_summoned rt function_id version slot_index (env.summon_at slot_index)
on_decision rt env function_id version (place target) =
    if target == env.self_id
    then (elim env.least_busy [
      | none ↦ record {
        runtime = rt;
        forwarded_to = [];
        result =
            err (invocation "leader named this endpoint as owner but no local container exists");
      }
      | some handle ↦ record { runtime = rt; forwarded_to = []; result = ok (some handle) }
    ])
    else on_forwarded rt target (env.forward_job target)

unfoldable pub resolve_placement : Runtime → Surroundings → String → ℕ → Placed
unfolding on_decision
resolve_placement rt env function_id version = elim env.find_idle [
  | some handle ↦ record { runtime = rt; forwarded_to = []; result = ok (some handle) }
  | none ↦ elim env.request_growth [
    | err e ↦ record { runtime = rt; forwarded_to = []; result = err (invocation e) }
    | ok decision ↦ on_decision rt env function_id version decision
  ]
]
