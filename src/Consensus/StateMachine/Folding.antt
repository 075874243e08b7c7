-- ===== src/Consensus/StateMachine/Folding.antt =====
-- What a local mutation does to the replicated state.
use activex_endpoint.Prelude.{◌+◌, String, ◌≡◌, refl, string_eq}
use activex_endpoint.Prelude.Dict
use activex_endpoint.Prelude.Dict.{Dict, or_else, Distinct}
use activex_endpoint.Consensus.StateMachine.{ClusterState, StateMutation, apply_local}

-- The changes of a mutation name no key twice, as in any dict.
pub record IsValid (m : StateMutation) : Type 0 where
  pub functions : Distinct m.function_changes
  pub stored : Distinct m.data_changes
  pub buckets : Distinct m.bucket_changes

-- Each domain of the new state, key by key.
pub record Folds (s : ClusterState) (m : StateMutation) (t : ClusterState) : Type 0 where
  pub functions :
      (k : String)
      → Dict.get t.functions k ≡ or_else (Dict.get m.function_changes k) (Dict.get s.functions k)
  pub stored :
      (k : String) → Dict.get t.stored k ≡ or_else (Dict.get m.data_changes k) (Dict.get s.stored k)
  pub buckets :
      (k : String)
      → Dict.get t.buckets k ≡ or_else (Dict.get m.bucket_changes k) (Dict.get s.buckets k)
  pub members : t.members ≡ s.members
  pub version : t.version ≡ s.version + 1

-- A local mutation that names no key twice overwrites exactly the keys that it names, keeps the
-- members, and raises the version by one.
pub apply_local-Folds :
    (s : ClusterState) (m : StateMutation) → IsValid m → Folds s m (apply_local s m)
unfolding apply_local
apply_local-Folds s m v = record {
  functions = λ k. Dict.get-update s.functions m.function_changes k v.functions;
  stored = λ k. Dict.get-update s.stored m.data_changes k v.stored;
  buckets = λ k. Dict.get-update s.buckets m.bucket_changes k v.buckets;
  members = refl;
  version = refl;
}
