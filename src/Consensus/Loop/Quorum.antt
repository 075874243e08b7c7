-- ===== src/Consensus/Loop/Quorum.antt =====
-- Losses and restorations of the quorum over the ticks of consensus_loop.py.
use activex_endpoint.Prelude.{
  ℕ, ◌+◌, ◌≤◌, ◌≡◌, refl, String, Bool, true, false, Option, none, some, List, [], ◌∷◌, ◌++◌, map,
  filter, length, leb, max, arith, if◌then◌else◌, not, string_eq,
}
use activex_endpoint.Prelude.Sets.{contains}
use activex_endpoint.Consensus.Elector.{LeaderView, current_view, recompute}
use activex_endpoint.Consensus.Loop.{
  Peer, Node, Memory, BusEvent, quorum_lost, quorum_restored, evictions, quorum_change, quorum_size,
  quorum_events, leader_events, frozenset, members_of, flush, Ticked, run_consensus_tick,
}

-- What the peers are at a tick, and its time.
pub record Tick : Type 0 where
  pub peers : List Peer
  pub now : ℕ

pub record Config : Type 0 where
  pub self_id : String
  pub idle_seconds : ℕ
  pub local_mode : Bool

abbrev pub one_if : Bool → ℕ
one_if true = 1
one_if false = 0

-- The number of losses, and of restorations.
abbrev pub losses : List BusEvent → ℕ
losses [] = 0
losses (quorum_lost term count quorum ∷ events) = losses events + 1
losses (e ∷ events) = losses events

abbrev pub restorations : List BusEvent → ℕ
restorations [] = 0
restorations (quorum_restored term count quorum ∷ events) = restorations events + 1
restorations (e ∷ events) = restorations events

-- The members seen last are fewer than a quorum of the most that were ever seen.
abbrev has_enough : ℕ → Option (List String) → Bool
has_enough high_water none = true
has_enough high_water (some ids) = leb (quorum_size high_water) (length ids)

unfoldable pub has_quorum : Memory → Bool
unfolding quorum_size
has_quorum m = has_enough m.high_water_mark m.previous_member_ids

-- The node after the ticks, and all events of them.
pub run_ticks : Config → Node → List Tick → Node × List BusEvent
run_ticks c n [] = (n, [])
run_ticks c n (t ∷ ticks) =
    let ticked = run_consensus_tick n c.self_id t.peers c.idle_seconds t.now c.local_mode in
    let (last, events) = run_ticks c ticked.node ticks in (last, ticked.events ++ events)

losses-append : (xs ys : List BusEvent) → losses (xs ++ ys) ≡ losses xs + losses ys
losses-append [] ys = omega arith
losses-append (x ∷ xs) ys = ground (arith, losses-append xs ys)

restorations-append :
    (xs ys : List BusEvent) → restorations (xs ++ ys) ≡ restorations xs + restorations ys
restorations-append [] ys = omega arith
restorations-append (x ∷ xs) ys = ground (arith, restorations-append xs ys)

evictions-count :
    (term count quorum : ℕ) (gone : List String)
    → (losses (evictions term count quorum gone) ≡ 0)
      × (restorations (evictions term count quorum gone) ≡ 0)
evictions-count term count quorum [] = (refl, refl)
evictions-count term count quorum (p ∷ gone) = evictions-count term count quorum gone

quorum_change-count :
    (had has : Bool) (term count quorum : ℕ) (gone : List String)
    → let events = quorum_change had has term count quorum gone in
      losses events + one_if has ≡ restorations events + one_if had
quorum_change-count true true term count quorum gone =
    omega (arith, evictions-count term count quorum gone)
quorum_change-count true false term count quorum gone = omega arith
quorum_change-count false true term count quorum gone = omega arith
quorum_change-count false false term count quorum gone = omega arith

leader_events-count :
    (previous view : LeaderView) (was is : Bool)
    → (losses (leader_events previous view was is) ≡ 0)
      × (restorations (leader_events previous view was is) ≡ 0)
unfolding leader_events
leader_events-count previous view was is = ground arith

frozenset-nonempty : (x : String) (xs : List String) → 1 ≤ length (frozenset (x ∷ xs))
unfolding frozenset contains
frozenset-nonempty x xs = some_member (frozenset xs)
  where
    some_member : (ys : List String) → 1 ≤ length (if contains ys x then ys else x ∷ ys)
    some_member [] = ground arith
    some_member (y ∷ ys) = ground arith

-- Before the first tick nothing was seen.
abbrev Started : Memory → Type 0
Started m = m.previous_member_ids ≡ none → m.high_water_mark ≡ 0

memory_after : Memory → List String → Memory
memory_after m ids = record {
  high_water_mark = max m.high_water_mark (length ids);
  previous_member_ids = some ids;
}

quorum_events-count :
    (high_water : ℕ) (previous : Option (List String)) (ids : List String) (term : ℕ)
    → let m : Memory = record { high_water_mark = high_water; previous_member_ids = previous } in
      Started m
      → 1 ≤ length ids
      → losses (quorum_events m ids term) + one_if (has_quorum (memory_after m ids))
        ≡ restorations (quorum_events m ids term) + one_if (has_quorum m)
unfolding quorum_events has_quorum memory_after quorum_size
quorum_events-count high_water none ids term started some_ids =
    let fresh : high_water ≡ 0 = started refl in ground (arith, fresh, some_ids)
quorum_events-count high_water (some previous) ids term started some_ids =
    quorum_change-count (leb (quorum_size high_water) (length previous))
      (leb (quorum_size (max high_water (length ids))) (length ids)) term (length ids)
      (quorum_size (max high_water (length ids))) (filter (λ p. not (contains ids p)) previous)

ids_of : Config → Tick → List String
ids_of c t = frozenset (c.self_id ∷ map (λ m. m.peer_id) (members_of t.peers c.local_mode))

tick : Config → Node → Tick → Ticked
tick c n t = run_consensus_tick n c.self_id t.peers c.idle_seconds t.now c.local_mode

tick-memory :
    (c : Config) (n : Node) (t : Tick)
    → (tick c n t).node.memory ≡ memory_after n.memory (ids_of c t)
unfolding tick run_consensus_tick flush memory_after ids_of
tick-memory c n t = ground arith

-- The events of a tick: those of the quorum, and some that neither lose nor restore it.
tick-events :
    (c : Config) (n : Node) (t : Tick)
    → (term : ℕ) × (others : List BusEvent) × ((tick c n t).events
        ≡ quorum_events n.memory (ids_of c t) term ++ others)
      × (losses others ≡ 0)
      × (restorations others ≡ 0)
unfolding tick run_consensus_tick ids_of
tick-events c n t =
    let previous = current_view n.elector in
    let view = (recompute n.elector (members_of t.peers c.local_mode) t.now).1 in
    let was = contains previous.leader_ids c.self_id in
    let is = contains view.leader_ids c.self_id in
    let none_lost = leader_events-count previous view was is in
    (view.term, leader_events previous view was is, refl, none_lost.0, none_lost.1)

tick-count :
    (c : Config) (n : Node) (t : Tick)
    → Started n.memory
    → losses (tick c n t).events + one_if (has_quorum (tick c n t).node.memory)
      ≡ restorations (tick c n t).events + one_if (has_quorum n.memory)
unfolding ids_of
tick-count c n t started =
    let (term, others, same, none_lost, none_back) = tick-events c n t in
    let counts =
      quorum_events-count n.memory.high_water_mark n.memory.previous_member_ids (ids_of c t) term
        started (frozenset-nonempty c.self_id _) in
    rw (same, tick-memory c n t)
      (omega (
        arith,
        losses-append (quorum_events n.memory (ids_of c t) term) others,
        restorations-append (quorum_events n.memory (ids_of c t) term) others,
        none_lost,
        none_back,
        counts,
      ))

tick-Started : (c : Config) (n : Node) (t : Tick) → Started (tick c n t).node.memory
unfolding memory_after
tick-Started c n t = rw (tick-memory c n t) (λ h. absurd (ground arith))

run_ticks-count :
    (c : Config) (n : Node) (ticks : List Tick)
    → Started n.memory
    → let (last, events) = run_ticks c n ticks in
      losses events + one_if (has_quorum last.memory)
      ≡ restorations events + one_if (has_quorum n.memory)
unfolding run_ticks tick
run_ticks-count c n [] started = refl
run_ticks-count c n (t ∷ ticks) started =
    let rest = run_ticks-count c (tick c n t).node ticks (tick-Started c n t) in
    let first = tick-count c n t started in
    omega (
      arith,
      rest,
      first,
      losses-append (tick c n t).events (run_ticks c (tick c n t).node ticks).1,
      restorations-append (tick c n t).events (run_ticks c (tick c n t).node ticks).1,
    )

-- From the first tick on, whoever comes and goes: the quorum is there, and was lost as often as it was restored; or it
-- is not there, and was lost once more than it was restored.
pub run_ticks-quorum :
    (c : Config) (n : Node) (ticks : List Tick)
    → n.memory ≡ record { high_water_mark = 0; previous_member_ids = none }
    → let (last, events) = run_ticks c n ticks in
      losses events ≡ restorations events + (if has_quorum last.memory then 0 else 1)
unfolding has_quorum
run_ticks-quorum c n ticks fresh =
    let started : Started n.memory = rw fresh (λ h. refl) in
    let had : has_quorum n.memory ≡ true = rw fresh in
    ground (arith, run_ticks-count c n ticks started, had)
