-- ===== src/Consensus/StateMachine/Convergence.antt =====
-- Sequences of snapshots that a follower takes by `apply_remote` of state_machine.py.
use mathlib.Core.List.{Memᴰ}
use activex_endpoint.Prelude.{
  ◌≤◌, ◌<◌, max, ◌≡◌, refl, ap, ◌↔◌, Bool-cases, leb→le, inl, inr, true, false, List, [], ◌∷◌,
  arith, leb,
}
use activex_endpoint.Consensus.StateMachine.{ClusterState, apply_remote}

-- The snapshots that arrived, folded in one after another.
pub receive_all : ClusterState → List ClusterState → ClusterState
receive_all s [] = s
receive_all s (incoming ∷ rest) = receive_all (apply_remote s incoming).0 rest

-- Whether a snapshot changed anything is told truly, and the version never falls.
pub apply_remote-version :
    (s incoming : ClusterState)
    → ((apply_remote s incoming).0.version ≡ max s.version incoming.version)
      × ((apply_remote s incoming).1 ≡ false → (apply_remote s incoming).0 ≡ s)
      × ((apply_remote s incoming).1 ≡ true
          → ((apply_remote s incoming).0 ≡ incoming) × (s.version < incoming.version))
unfolding apply_remote
apply_remote-version s incoming = ground arith

-- `t` is the newest of `s` and `received`.
pub record IsNewest (s : ClusterState) (received : List ClusterState) (t : ClusterState)
    : Type 0 where
  pub from : Memᴰ t (s ∷ received)
  pub at_least : (u : ClusterState) → Memᴰ u (s ∷ received) → u.version ≤ t.version

keep-IsNewest :
    (s i : ClusterState) (rest : List ClusterState) (t : ClusterState)
    → i.version ≤ s.version
    → IsNewest s rest t
    → IsNewest s (i ∷ rest) t
keep-IsNewest s i rest t h n = record { from = from n.from; at_least = at_least }
  where
    from : Memᴰ t (s ∷ rest) → Memᴰ t (s ∷ i ∷ rest)
    from (Memᴰ.head e) = Memᴰ.head e
    from (Memᴰ.tail m) = Memᴰ.tail (Memᴰ.tail m)

    at_least : (u : ClusterState) → Memᴰ u (s ∷ i ∷ rest) → u.version ≤ t.version
    at_least u (Memᴰ.head e) = n.at_least u (Memᴰ.head e)
    at_least u (Memᴰ.tail (Memᴰ.head e)) =
        let s-le : s.version ≤ t.version = n.at_least s (Memᴰ.head refl) in
        omega (arith, ap (λ (x : ClusterState). x.version) e)
    at_least u (Memᴰ.tail (Memᴰ.tail m)) = n.at_least u (Memᴰ.tail m)

take_newer :
    (s i : ClusterState) (rest : List ClusterState) (t : ClusterState)
    → s.version ≤ i.version
    → IsNewest i rest t
    → IsNewest s (i ∷ rest) t
take_newer s i rest t h n = record { from = Memᴰ.tail n.from; at_least = at_least }
  where
    at_least : (u : ClusterState) → Memᴰ u (s ∷ i ∷ rest) → u.version ≤ t.version
    at_least u (Memᴰ.head e) =
        let i-le : i.version ≤ t.version = n.at_least i (Memᴰ.head refl) in
        omega (arith, ap (λ (x : ClusterState). x.version) e)
    at_least u (Memᴰ.tail m) = n.at_least u m

-- Whatever snapshots arrive, the follower ends on one of them or its own state, and on a newest one.
pub receive_all-IsNewest :
    (s : ClusterState) (received : List ClusterState) → IsNewest s received (receive_all s received)
unfolding receive_all apply_remote
receive_all-IsNewest s [] = record { from = Memᴰ.head refl; at_least = at_least }
  where
    at_least : (u : ClusterState) → Memᴰ u (s ∷ []) → u.version ≤ s.version
    at_least u (Memᴰ.head e) = omega (arith, ap (λ (x : ClusterState). x.version) e)
    at_least u (Memᴰ.tail m) = elim m [ ]
receive_all-IsNewest s (i ∷ rest) = elim (Bool-cases (leb i.version s.version)) [
  | inl old ↦ rw old (keep-IsNewest s i rest _ (leb→le _ _ old) (receive_all-IsNewest s rest))
  | inr new ↦ rw new (take_newer s i rest _ (ground arith) (receive_all-IsNewest i rest))
]

-- Two followers that hold the same snapshots between them, each in its own order and as often as it
-- likes, end in the same state, if one version is never two states.
pub receive_all_agreement :
    (s s' : ClusterState) (xs ys : List ClusterState)
    → ((u : ClusterState) → Memᴰ u (s ∷ xs) ↔ Memᴰ u (s' ∷ ys))
    → ((u v : ClusterState) → Memᴰ u (s ∷ xs) → Memᴰ v (s ∷ xs) → u.version ≡ v.version → u ≡ v)
    → receive_all s xs ≡ receive_all s' ys
receive_all_agreement s s' xs ys same unique =
    let n = receive_all-IsNewest s xs in
    let n' = receive_all-IsNewest s' ys in
    let le : (receive_all s xs).version ≤ (receive_all s' ys).version =
      n'.at_least _ ((same _).0 n.from) in
    let ge : (receive_all s' ys).version ≤ (receive_all s xs).version =
      n.at_least _ ((same _).1 n'.from) in
    unique _ _ n.from ((same _).1 n'.from) (omega arith)
