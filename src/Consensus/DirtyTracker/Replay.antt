-- ===== src/Consensus/DirtyTracker/Replay.antt =====
-- Sequences of marks on the tracker of dirty_tracker.py, and what draining them does to the state.
use activex_endpoint.Prelude.{
  ℕ, ◌+◌, String, ◌≡◌, refl, Option, none, some, List, [], ◌∷◌, arith, if◌then◌else◌, ◌==◌,
  string_eq,
}
use activex_endpoint.Prelude.Dict
use activex_endpoint.Prelude.Dict.{Dict, or_else, Distinct}
use activex_endpoint.Consensus.Elector.{LeaderView}
use activex_endpoint.Consensus.StateMachine.{Bytes, ClusterState, apply_local}
use activex_endpoint.Consensus.StateMachine.Folding.{Folds, apply_local-Folds}
use activex_endpoint.Consensus.DirtyTracker.{
  DirtyTracker, init, mark_function_dirty, mark_data_dirty, mark_bucket_dirty,
  mark_leader_view_dirty, drain,
}

pub data Mark : Type 0 where
  function stored bucket : String → Bytes → ℕ → Mark
  leader_view : LeaderView → ℕ → Mark

unfoldable pub mark : DirtyTracker → Mark → DirtyTracker
mark t (Mark.function k b now) = mark_function_dirty t k b now
mark t (Mark.stored k b now) = mark_data_dirty t k b now
mark t (Mark.bucket k b now) = mark_bucket_dirty t k b now
mark t (Mark.leader_view v now) = mark_leader_view_dirty t v now

unfoldable pub mark_all : DirtyTracker → List Mark → DirtyTracker
mark_all t [] = t
mark_all t (m ∷ marks) = mark_all (mark t m) marks

-- The value that the marks give a key, the last one first.
abbrev pub last_function : String → List Mark → Option Bytes
last_function k [] = none
last_function k (Mark.function j b _ ∷ marks) =
    or_else (last_function k marks) (if j == k then some b else none)
last_function k (m ∷ marks) = last_function k marks

abbrev pub last_stored : String → List Mark → Option Bytes
last_stored k [] = none
last_stored k (Mark.stored j b _ ∷ marks) =
    or_else (last_stored k marks) (if j == k then some b else none)
last_stored k (m ∷ marks) = last_stored k marks

abbrev pub last_bucket : String → List Mark → Option Bytes
last_bucket k [] = none
last_bucket k (Mark.bucket j b _ ∷ marks) =
    or_else (last_bucket k marks) (if j == k then some b else none)
last_bucket k (m ∷ marks) = last_bucket k marks

abbrev pub last_view : List Mark → Option LeaderView
last_view [] = none
last_view (Mark.leader_view v _ ∷ marks) = or_else (last_view marks) (some v)
last_view (m ∷ marks) = last_view marks

-- The pending sets name no key twice.
pub record IsWellFormed (t : DirtyTracker) : Type 0 where
  pub functions : Distinct t.pending_functions
  pub stored : Distinct t.pending_data
  pub buckets : Distinct t.pending_buckets

mark-IsWellFormed : (t : DirtyTracker) (m : Mark) → IsWellFormed t → IsWellFormed (mark t m)
unfolding mark mark_function_dirty mark_data_dirty mark_bucket_dirty mark_leader_view_dirty
mark-IsWellFormed t (Mark.function k b now) w = record {
  functions = Dict.put-Distinct _ k b w.functions;
  stored = w.stored;
  buckets = w.buckets;
}
mark-IsWellFormed t (Mark.stored k b now) w = record {
  functions = w.functions;
  stored = Dict.put-Distinct _ k b w.stored;
  buckets = w.buckets;
}
mark-IsWellFormed t (Mark.bucket k b now) w = record {
  functions = w.functions;
  stored = w.stored;
  buckets = Dict.put-Distinct _ k b w.buckets;
}
mark-IsWellFormed t (Mark.leader_view v now) w = record {
  functions = w.functions;
  stored = w.stored;
  buckets = w.buckets;
}

pub mark_all-IsWellFormed :
    (t : DirtyTracker) (marks : List Mark) → IsWellFormed t → IsWellFormed (mark_all t marks)
unfolding mark_all
mark_all-IsWellFormed t [] w = w
mark_all-IsWellFormed t (m ∷ marks) w =
    mark_all-IsWellFormed (mark t m) marks (mark-IsWellFormed t m w)

-- What is pending under a key: the last mark, or what was pending before.
pub pending_functions-mark_all :
    (t : DirtyTracker) (marks : List Mark) (k : String)
    → Dict.get (mark_all t marks).pending_functions k
      ≡ or_else (last_function k marks) (Dict.get t.pending_functions k)
unfolding mark_all mark mark_function_dirty mark_data_dirty mark_bucket_dirty mark_leader_view_dirty
pending_functions-mark_all t [] k = refl
pending_functions-mark_all t (Mark.function j b now ∷ marks) k = ground (
  arith,
  pending_functions-mark_all (mark t (Mark.function j b now)) marks k,
  Dict.get-put t.pending_functions j k b,
)
pending_functions-mark_all t (m ∷ marks) k = pending_functions-mark_all (mark t m) marks k

pub pending_data-mark_all :
    (t : DirtyTracker) (marks : List Mark) (k : String)
    → Dict.get (mark_all t marks).pending_data k
      ≡ or_else (last_stored k marks) (Dict.get t.pending_data k)
unfolding mark_all mark mark_function_dirty mark_data_dirty mark_bucket_dirty mark_leader_view_dirty
pending_data-mark_all t [] k = refl
pending_data-mark_all t (Mark.stored j b now ∷ marks) k = ground (
  arith,
  pending_data-mark_all (mark t (Mark.stored j b now)) marks k,
  Dict.get-put t.pending_data j k b,
)
pending_data-mark_all t (m ∷ marks) k = pending_data-mark_all (mark t m) marks k

pub pending_buckets-mark_all :
    (t : DirtyTracker) (marks : List Mark) (k : String)
    → Dict.get (mark_all t marks).pending_buckets k
      ≡ or_else (last_bucket k marks) (Dict.get t.pending_buckets k)
unfolding mark_all mark mark_function_dirty mark_data_dirty mark_bucket_dirty mark_leader_view_dirty
pending_buckets-mark_all t [] k = refl
pending_buckets-mark_all t (Mark.bucket j b now ∷ marks) k = ground (
  arith,
  pending_buckets-mark_all (mark t (Mark.bucket j b now)) marks k,
  Dict.get-put t.pending_buckets j k b,
)
pending_buckets-mark_all t (m ∷ marks) k = pending_buckets-mark_all (mark t m) marks k

pub leader_view-mark_all :
    (t : DirtyTracker) (marks : List Mark)
    → (mark_all t marks).pending_leader_view ≡ or_else (last_view marks) t.pending_leader_view
unfolding mark_all mark mark_function_dirty mark_data_dirty mark_bucket_dirty mark_leader_view_dirty
leader_view-mark_all t [] = refl
leader_view-mark_all t (Mark.leader_view v now ∷ marks) =
    ground (arith, leader_view-mark_all (mark t (Mark.leader_view v now)) marks)
leader_view-mark_all t (m ∷ marks) = leader_view-mark_all (mark t m) marks

-- What the marks make of a replicated state `s`.
pub record Replays (s : ClusterState) (marks : List Mark) (r : ClusterState) : Type 0 where
  pub functions :
      (k : String)
      → Dict.get r.functions k ≡ or_else (last_function k marks) (Dict.get s.functions k)
  pub stored :
      (k : String) → Dict.get r.stored k ≡ or_else (last_stored k marks) (Dict.get s.stored k)
  pub buckets :
      (k : String) → Dict.get r.buckets k ≡ or_else (last_bucket k marks) (Dict.get s.buckets k)
  pub term : r.term ≡ (elim (last_view marks) [ none ↦ s.term | some view ↦ view.term ])
  pub version : r.version ≡ s.version + 1

-- Any marks on a fresh tracker, drained and applied to a state, give every key of each domain the
-- value that was marked last (or leave it alone), and the term of the leader view that was marked
-- last; the version grows by one.
pub drain-Replays :
    (s : ClusterState) (max_dirty_count : ℕ) (marks : List Mark)
    → Replays s marks (apply_local s (drain (mark_all (init max_dirty_count) marks)).1)
unfolding drain Dict.get
drain-Replays s n marks =
    let t : DirtyTracker = mark_all (init n) marks in
    let w : IsWellFormed t =
      mark_all-IsWellFormed (init n) marks (record { functions = tt; stored = tt; buckets = tt }) in
    let f : Folds s (drain t).1 (apply_local s (drain t).1) =
      apply_local-Folds s (drain t).1
        (record { functions = w.functions; stored = w.stored; buckets = w.buckets }) in
    record {
      functions = λ k. ground (arith, f.functions k, pending_functions-mark_all (init n) marks k);
      stored = λ k. ground (arith, f.stored k, pending_data-mark_all (init n) marks k);
      buckets = λ k. ground (arith, f.buckets k, pending_buckets-mark_all (init n) marks k);
      term = unfold apply_local in ground (arith, leader_view-mark_all (init n) marks);
      version = f.version;
    }
