-- ===== src/Consensus/Elector/Leadership.antt =====
-- Who leads after `BullyLeaderElector.recompute`, and when the term moves.
use activex_endpoint.Prelude.{
  ℕ, ◌+◌, String, ◌≡◌, ◌∙◌, sym, refl, ap, ◌↔◌, true, List, [], ◌∷◌, arith, if◌then◌else◌,
  Bool-cases, inl, inr, ◌==◌, string_eq,
}
use activex_endpoint.Prelude.Sets.{contains, subset, set_eq, subset-contains, set_eq_refl}
use activex_endpoint.Prelude.Order.{
  str_le, str_le_antisymm, max_of, max_of-ge, max_of-ge_start, max_of-mem, string_ord,
}
use activex_endpoint.Consensus.Elector.{
  ClusterMember, LeaderView, BullyLeaderElector, all_ids, winner, recompute, is_leader, decide,
}

-- `p` is the greatest of `ids`.
abbrev pub IsGreatest : List String → String → Type 0
IsGreatest ids p =
    (contains ids p ≡ true) × ((a : String) → contains ids a ≡ true → str_le a p ≡ true)

max_of-IsGreatest : (x : String) (xs : List String) → IsGreatest (x ∷ xs) (max_of x xs)
unfolding contains
max_of-IsGreatest x xs = (
  max_of-mem x xs,
  λ a h. ground (arith, string_eq.beq_iff x a, max_of-ge_start x xs, max_of-ge x xs a),
)

pub IsGreatest-unique :
    (ids : List String) (p q : String) → IsGreatest ids p → IsGreatest ids q → p ≡ q
IsGreatest-unique ids p q hp hq = str_le_antisymm p q (hq.1 p hp.0) (hp.1 q hq.0)

-- The decided view leads exactly the winner, kept or new.
decide-leader :
    (view : LeaderView) (w p : String) (now : ℕ)
    → contains (decide view w now).leader_ids p ≡ (w == p)
unfolding decide set_eq subset contains
decide-leader view w p now = ground (
  arith,
  string_eq.beq_iff w p,
  string_eq.beq_iff w w,
  subset-contains view.leader_ids (w ∷ []) p,
  subset-contains (w ∷ []) view.leader_ids p,
)

decide-decide :
    (view : LeaderView) (w : String) (now later : ℕ)
    → decide (decide view w now) w later ≡ decide view w now
unfolding decide
decide-decide view w now later = elim (Bool-cases (set_eq view.leader_ids (w ∷ []))) [
  | inl kept ↦ rw (kept, kept)
  | inr moved ↦ rw (moved, set_eq_refl (w ∷ []))
]

decide-term :
    (view : LeaderView) (w : String) (now : ℕ)
    → let view' = decide view w now in
      let kept = set_eq view.leader_ids view'.leader_ids in
      (view'.term ≡ (if kept then view.term else view.term + 1))
      × (view'.decided_at ≡ (if kept then view.decided_at else now))
unfolding decide
decide-term view w now = elim (Bool-cases (set_eq view.leader_ids (w ∷ []))) [
  | inl kept ↦ rw (kept, set_eq_refl view.leader_ids) (refl, refl)
  | inr moved ↦ rw (moved, moved) (refl, refl)
]

recompute-leader :
    (e : BullyLeaderElector) (members : List ClusterMember) (now : ℕ) (p : String)
    → is_leader (recompute e members now).0 p ≡ (winner e members == p)
unfolding recompute is_leader
recompute-leader e members now p = decide-leader e.view (winner e members) p now

-- After a recomputation a peer leads exactly when its id is the greatest among the node's own id
-- and the members' ids.
pub is_leader-recompute_iff :
    (e : BullyLeaderElector) (members : List ClusterMember) (now : ℕ) (p : String)
    → (is_leader (recompute e members now).0 p ≡ true) ↔ IsGreatest (all_ids e members) p
unfolding winner
is_leader-recompute_iff e members now p =
    let greatest = max_of-IsGreatest e.self_id _ in
    rw recompute-leader (
      λ h. rw (← (string_eq.beq_iff _ p).0 h) greatest,
      λ h. (string_eq.beq_iff _ p).1 (IsGreatest-unique (all_ids e members) _ p greatest h),
    )

-- Two nodes that see the same set of ids, each counting itself, agree on every peer's leadership,
-- whatever views and clocks they had.
pub recompute_agreement :
    (e f : BullyLeaderElector) (ms ns : List ClusterMember) (now later : ℕ) (p : String)
    → ((a : String) → contains (all_ids e ms) a ≡ contains (all_ids f ns) a)
    → is_leader (recompute e ms now).0 p ≡ is_leader (recompute f ns later).0 p
unfolding winner
recompute_agreement e f ms ns now later p same =
    let we : IsGreatest (all_ids e ms) (winner e ms) = max_of-IsGreatest e.self_id _ in
    let wf : IsGreatest (all_ids f ns) (winner f ns) = max_of-IsGreatest f.self_id _ in
    let wf' : IsGreatest (all_ids e ms) (winner f ns) =
      (same (winner f ns) ∙ wf.0, λ a h. wf.1 a (sym (same a) ∙ h)) in
    rw (
      recompute-leader e ms now p,
      recompute-leader f ns later p,
      IsGreatest-unique (all_ids e ms) (winner e ms) (winner f ns) we wf',
    )

-- A recomputation from the same members, at any later time, changes nothing: not the leader, not
-- the term, not the time of the decision.
pub recompute-recompute :
    (e : BullyLeaderElector) (members : List ClusterMember) (now later : ℕ)
    → recompute (recompute e members now).0 members later ≡ recompute e members now
unfolding recompute winner
recompute-recompute e members now later =
    let fixed = decide-decide e.view (winner e members) now later in
    ap (λ (v : LeaderView). (record e { view = v }, v)) fixed

-- The term moves by one exactly when the set of leaders changes, and the time of the decision with it.
pub term-recompute :
    (e : BullyLeaderElector) (members : List ClusterMember) (now : ℕ)
    → let view = (recompute e members now).1 in
      let kept = set_eq e.view.leader_ids view.leader_ids in
      (view.term ≡ (if kept then e.view.term else e.view.term + 1))
      × (view.decided_at ≡ (if kept then e.view.decided_at else now))
unfolding recompute
term-recompute e members now = decide-term e.view (winner e members) now
