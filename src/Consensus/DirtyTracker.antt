-- ===== src/Consensus/DirtyTracker.antt =====
-- axo_endpoint/core/consensus/dirty_tracker.py: the mutations that wait for the next flush. Times
-- are ticks; `now - last >= idle` is written without the subtraction.
pub mod Flushing
pub mod Replay
use activex_endpoint.Prelude.{
  ℕ, ◌+◌, String, Bool, true, false, Option, none, some, [], leb, if◌then◌else◌, length, ◌==◌,
  nat_eq, string_eq,
}
use activex_endpoint.Prelude.Dict
use activex_endpoint.Prelude.Dict.{Dict}
use activex_endpoint.Consensus.Elector.{LeaderView}
use activex_endpoint.Consensus.StateMachine.{Bytes, StateMutation}

pub record DirtyTracker : Type 0 where
  pub pending_functions : Dict String Bytes
  pub pending_data : Dict String Bytes
  pub pending_buckets : Dict String Bytes
  pub pending_leader_view : Option LeaderView
  pub last_change_at : ℕ
  pub max_dirty_count : ℕ

-- `__init__`
abbrev pub init : ℕ → DirtyTracker
init max_dirty_count = record {
  pending_functions = [];
  pending_data = [];
  pending_buckets = [];
  pending_leader_view = none;
  last_change_at = 0;
  max_dirty_count = max_dirty_count;
}

unfoldable pub mark_function_dirty : DirtyTracker → String → Bytes → ℕ → DirtyTracker
mark_function_dirty t key serialized now = record t {
  pending_functions = Dict.put t.pending_functions key serialized;
  last_change_at = now;
}

unfoldable pub mark_data_dirty : DirtyTracker → String → Bytes → ℕ → DirtyTracker
mark_data_dirty t key serialized now = record t {
  pending_data = Dict.put t.pending_data key serialized;
  last_change_at = now;
}

unfoldable pub mark_bucket_dirty : DirtyTracker → String → Bytes → ℕ → DirtyTracker
mark_bucket_dirty t key serialized now = record t {
  pending_buckets = Dict.put t.pending_buckets key serialized;
  last_change_at = now;
}

unfoldable pub mark_leader_view_dirty : DirtyTracker → LeaderView → ℕ → DirtyTracker
mark_leader_view_dirty t view now = record t {
  pending_leader_view = some view;
  last_change_at = now;
}

unfoldable pub pending_count : DirtyTracker → ℕ
pending_count t =
    length t.pending_functions
    + length t.pending_data
    + length t.pending_buckets
    + (elim t.pending_leader_view [ none ↦ 0 | some _ ↦ 1 ])

unfoldable pub should_flush : DirtyTracker → ℕ → ℕ → Bool
unfolding pending_count
should_flush t now idle_seconds =
    if pending_count t == 0
    then false
    else if leb t.max_dirty_count (pending_count t)
    then true
    else leb (t.last_change_at + idle_seconds) now

-- The tracker after the call, and the mutation that it returns.
unfoldable pub drain : DirtyTracker → DirtyTracker × StateMutation
drain t = (
  record t {
    pending_functions = [];
    pending_data = [];
    pending_buckets = [];
    pending_leader_view = none;
  },
  record {
    function_changes = t.pending_functions;
    data_changes = t.pending_data;
    bucket_changes = t.pending_buckets;
    leader_view = t.pending_leader_view;
  },
)
