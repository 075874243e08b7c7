-- ===== src/Examples/Consensus.antt =====
-- The theorems about the consensus components, at concrete inputs.
use mathlib.Core.List.{Memᴰ}
use activex_endpoint.Prelude.{
  sym, ap, ◌∙◌, ℕ, ◌≤◌, max, String, ◌≡◌, refl, ◌↔◌, Bool, true, false, none, List, [], ◌∷◌, length,
  arith, string_eq, nat_eq, pair_eq, option_eq, ltb,
}
use activex_endpoint.Prelude.Sets.{contains}
use activex_endpoint.Consensus.Ledger.{
  PoolKey, key_eq, ConcurrencyLedger, Rng, SlotDecision, place, slots, idle_count, request_slot,
  release_slot, reap_unknown_owners, smallest_unused_index, pool_metrics_key,
  parse_pool_metrics_key, round_robin,
}
use activex_endpoint.Consensus.Ledger
use activex_endpoint.Consensus.Ledger.Cap.{Call, request, release, reap, perform_all, slots_capped}
use activex_endpoint.Consensus.Ledger.Placement.{Explains, request_slot-Explains}
use activex_endpoint.Consensus.Elector.{
  ClusterMember, BullyLeaderElector, recompute, is_leader, all_ids,
}
use activex_endpoint.Consensus.Elector.Leadership.{
  IsGreatest, is_leader-recompute_iff, recompute_agreement,
}
use activex_endpoint.Consensus.StateMachine.{ClusterState, StateMutation, initial, apply_local}
use activex_endpoint.Consensus.StateMachine.Convergence.{receive_all, receive_all_agreement}
use activex_endpoint.Consensus.DirtyTracker.{
  DirtyTracker, should_flush, pending_count, drain, mark_function_dirty,
}
use activex_endpoint.Consensus.DirtyTracker
use activex_endpoint.Consensus.DirtyTracker.Replay.{Mark, mark_all, Replays, drain-Replays}
use activex_endpoint.Consensus.ResultConsistency.{
  push_with_retry, ResultConsistencyStore, ResultConsistencySweeper, synced, inconsistent,
  all_job_ids, run_manual_pass,
}
use activex_endpoint.Consensus.ResultConsistency.Retry.{gaps, push_with_retry_succeeds}
use activex_endpoint.Consensus.ResultConsistency.Sweep.{run_manual_pass_covers}

-- Picks the first.
first : Rng
unfolding contains
first = record {
  choice = λ x xs. x;
  sample = λ x y xs. (x, y);
  choice_mem = λ x xs. ground (arith, string_eq.beq_iff x x);
  sample_left = λ x y xs. ground (arith, string_eq.beq_iff x x);
  sample_right = λ x y xs. ground (arith, string_eq.beq_iff y y);
}

abbrev calls : List Call
calls =
    request first "resize" 1 "node-a"
    ∷ request first "resize" 1 "node-b"
    ∷ release "resize" 1 0 "node-a"
    ∷ reap ("node-b" ∷ [])
    ∷ request first "resize" 1 "node-c"
    ∷ []

slots_capped_example :
    length (slots (perform_all (λ k. 2) (Ledger.init "round_robin") calls) ("resize", 1)) ≤ max 1 2
slots_capped_example = slots_capped (λ k. 2) "round_robin" calls ("resize", 1)

-- One slot is held by an endpoint that reports an idle container.
abbrev ledger : ConcurrencyLedger
ledger = record {
  strategy = round_robin;
  ready = true;
  grants = (("resize", 1), (0, "node-a") ∷ []) ∷ [];
  pool_metrics = (("resize", 1), ("node-a", (1, 1)) ∷ []) ∷ [];
  rr_cursor = [];
}

request_slot-Explains_example :
    let d = request_slot first ledger "resize" 1 2 "node-b" in
    Explains ledger ("resize", 1) 2 "node-b" d.0 d.1
request_slot-Explains_example = request_slot-Explains first ledger "resize" 1 2 "node-b"

abbrev members : List ClusterMember
members =
    record { peer_id = "b"; rpc_uri = "tcp://b" }
    ∷ record { peer_id = "c"; rpc_uri = "tcp://c" }
    ∷ []

abbrev others : List ClusterMember
others =
    record { peer_id = "c"; rpc_uri = "tcp://c" }
    ∷ record { peer_id = "a"; rpc_uri = "tcp://a" }
    ∷ []

abbrev node : String → BullyLeaderElector
node id = record { self_id = id; view = record { leader_ids = id ∷ []; term = 0; decided_at = 0 } }

is_leader-recompute_iff_example :
    (is_leader (recompute (node "a") members 5).0 "c" ≡ true)
    ↔ IsGreatest (all_ids (node "a") members) "c"
is_leader-recompute_iff_example = is_leader-recompute_iff (node "a") members 5 "c"

same_ids :
    (x : String) → contains (all_ids (node "a") members) x ≡ contains (all_ids (node "b") others) x
unfolding contains
same_ids x = ground arith

recompute_agreement_example :
    is_leader (recompute (node "a") members 5).0 "c"
    ≡ is_leader (recompute (node "b") others 9).0 "c"
recompute_agreement_example =
    recompute_agreement (node "a") (node "b") members others 5 9 "c" same_ids

abbrev state : ℕ → ClusterState
state version = record initial { version = version }

swapped : {a b u : ClusterState} → Memᴰ u (a ∷ b ∷ []) → Memᴰ u (b ∷ a ∷ [])
swapped (Memᴰ.head e) = Memᴰ.tail (Memᴰ.head e)
swapped (Memᴰ.tail (Memᴰ.head e)) = Memᴰ.head e
swapped (Memᴰ.tail (Memᴰ.tail m)) = elim m [ ]

one_version :
    (u v : ClusterState)
    → Memᴰ u (state 1 ∷ state 2 ∷ [])
    → Memᴰ v (state 1 ∷ state 2 ∷ [])
    → u.version ≡ v.version
    → u ≡ v
one_version u v (Memᴰ.head e) (Memᴰ.head f) h = e ∙ sym f
one_version u v (Memᴰ.head e) (Memᴰ.tail (Memᴰ.head f)) h = absurd (
    omega
      (arith, h, ap (λ (x : ClusterState). x.version) e, ap (λ (x : ClusterState). x.version) f))
one_version u v (Memᴰ.tail (Memᴰ.head e)) (Memᴰ.head f) h = absurd (
    omega
      (arith, h, ap (λ (x : ClusterState). x.version) e, ap (λ (x : ClusterState). x.version) f))
one_version u v (Memᴰ.tail (Memᴰ.head e)) (Memᴰ.tail (Memᴰ.head f)) h = e ∙ sym f
one_version u v (Memᴰ.head e) (Memᴰ.tail (Memᴰ.tail m)) h = elim m [ ]
one_version u v (Memᴰ.tail (Memᴰ.head e)) (Memᴰ.tail (Memᴰ.tail m)) h = elim m [ ]
one_version u v (Memᴰ.tail (Memᴰ.tail m)) _ h = elim m [ ]

receive_all_agreement_example :
    receive_all (state 1) (state 2 ∷ []) ≡ receive_all (state 2) (state 1 ∷ [])
receive_all_agreement_example =
    receive_all_agreement (state 1) (state 2) (state 2 ∷ []) (state 1 ∷ [])
      (λ u. (swapped, swapped)) one_version

abbrev mutation : StateMutation
mutation = record {
  function_changes = ("f:1", 7 ∷ []) ∷ ("f:2", 8 ∷ []) ∷ [];
  data_changes = [];
  bucket_changes = [];
  leader_view = none;
}

abbrev marks : List Mark
marks =
    Mark.function "f:1" (1 ∷ []) 3
    ∷ Mark.stored "d:1" (2 ∷ []) 4
    ∷ Mark.function "f:1" (5 ∷ []) 6
    ∷ []

drain-Replays_example :
    Replays initial marks (apply_local initial (drain (mark_all (DirtyTracker.init 10) marks)).1)
drain-Replays_example = drain-Replays initial 10 marks

abbrev tracker : DirtyTracker
tracker = record (DirtyTracker.init 10) {
  pending_functions = ("f:1", 1 ∷ []) ∷ [];
  last_change_at = 3;
}

third : ℕ → Bool
third n = ltb 1 n

push_with_retry_succeeds_example : push_with_retry third 5 1 ≡ (true, gaps 1 0 2)
unfolding third
push_with_retry_succeeds_example =
    push_with_retry_succeeds third 5 1 2 (omega arith) refl (λ j lt. ground arith)

abbrev sweeper : ResultConsistencySweeper
sweeper = record {
  chunk_size = 2;
  syncing = true;
  cursor = 1;
  priority = "job-3" ∷ [];
  last_run_at = none;
}

abbrev results : ResultConsistencyStore
results = record {
  states = ("job-1", synced) ∷ ("job-2", inconsistent) ∷ ("job-3", synced) ∷ [];
  hashes = [];
}

run_manual_pass_covers_example :
    (contains (run_manual_pass sweeper results).1 "job-1" ≡ true)
    × ((run_manual_pass sweeper results).0.syncing ≡ false)
unfolding contains all_job_ids
run_manual_pass_covers_example = run_manual_pass_covers sweeper results "job-1" (omega arith) refl
