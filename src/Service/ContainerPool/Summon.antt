-- ===== src/Service/ContainerPool/Summon.antt =====
-- What `summon` of spawner.py hands back.
use mathlib.Core.List.{Memᴰ}
use activex_endpoint.Prelude.{
  ◌+◌, ◌==◌, ℕ, ◌≤◌, ◌<◌, ◌≡◌, refl, sym, ap, subst, max, inl, inr, String, Bool, true, false, none,
  some, List, [], ◌∷◌, ◌++◌, length, leb, ltb, if◌then◌else◌, arith, Bool-cases, Option-cases, All,
  string_eq, nat_eq, pair_eq, ==-refl,
}
use activex_endpoint.Prelude.Dict.{get-put}
use activex_endpoint.Service.ContainerJobs.{is_gone}
use activex_endpoint.Service.ContainerPool.{
  PoolHandle, ContainerSummoner, pool_of, is_live, live, is_available, first_such, min_from,
  min_by_invocations, dismiss_stale, reserve, queue_or_grow, reuse_or, summon,
}
use activex_endpoint.Service.ContainerPool.Live.{min_by_invocations-none}

first_such-some :
    (p : PoolHandle → Bool) (hs : List PoolHandle) (h : PoolHandle)
    → first_such p hs ≡ some h
    → Memᴰ h hs × (p h ≡ true)
unfolding first_such
first_such-some p [] h e = absurd (ground (arith, e))
first_such-some p (g ∷ gs) h e = elim (Bool-cases (p g)) [
  | inl holds ↦
      let same : g ≡ h = ground (arith, e, holds) in
      (Memᴰ.head (sym same), subst (λ x. p x ≡ true) same holds)
  | inr fails ↦
      let (m, held) = first_such-some p gs h (ground (arith, e, fails)) in (Memᴰ.tail m, held)
]

first_such-none :
    (p : PoolHandle → Bool) (hs : List PoolHandle)
    → first_such p hs ≡ none
    → All (λ h. p h ≡ false) hs
unfolding first_such
first_such-none p [] e = tt
first_such-none p (g ∷ gs) e = ground (arith, e, first_such-none p gs)

abbrev NoMore : PoolHandle → PoolHandle → Type 0
NoMore h g = h.invocation_count ≤ g.invocation_count

min_from-least :
    (h : PoolHandle) (hs : List PoolHandle)
    → Memᴰ (min_from h hs) (h ∷ hs) × All (NoMore (min_from h hs)) (h ∷ hs)
unfolding min_from
min_from-least h [] = (Memᴰ.head refl, (omega arith, tt))
min_from-least h (g ∷ gs) = elim (Bool-cases (ltb g.invocation_count h.invocation_count)) [
  | inl fewer ↦
      let (m, (le, rest)) = min_from-least g gs in
      subst IsLeast (sym (ap (λ b. min_from (if b then g else h) gs) fewer))
        (Memᴰ.tail m, (ground (arith, fewer, le), (le, rest)))
  | inr no_fewer ↦
      let (m, (le, rest)) = min_from-least h gs in
      subst IsLeast (sym (ap (λ b. min_from (if b then g else h) gs) no_fewer))
        (skip m, (le, (ground (arith, no_fewer, le), rest)))
]
  where
    IsLeast : PoolHandle → Type 0
    IsLeast x = Memᴰ x (h ∷ g ∷ gs) × All (NoMore x) (h ∷ g ∷ gs)

    skip : {x : PoolHandle} → Memᴰ x (h ∷ gs) → Memᴰ x (h ∷ g ∷ gs)
    skip (Memᴰ.head e) = Memᴰ.head e
    skip (Memᴰ.tail m) = Memᴰ.tail (Memᴰ.tail m)

-- The answers that a summon may give on pools in which the stale members were dismissed.
pub data Answer (s : ContainerSummoner) (k : String × ℕ) (room : ℕ)
    : ContainerSummoner × PoolHandle → Type 0 where
  reused :
      (h : PoolHandle)
      → Memᴰ h (live (pool_of s k))
      → is_available h ≡ true
      → Answer s k room (s, h)
  queued :
      (h : PoolHandle)
      → Memᴰ h (live (pool_of s k))
      → All (NoMore h) (live (pool_of s k))
      → All (λ g. is_available g ≡ false) (live (pool_of s k))
      → room ≤ length (live (pool_of s k))
      → Answer s k room (s, h)
  grown :
      (after : ContainerSummoner) (h : PoolHandle)
      → Memᴰ h (live (pool_of after k))
      → pool_of after k ≡ pool_of s k ++ h ∷ []
      → ((j : String × ℕ) → (k == j) ≡ false → pool_of after j ≡ pool_of s j)
      → (h.identity ≡ s.next_identity) × (after.next_identity ≡ s.next_identity + 1)
      → after.spawning ≡ h ∷ s.spawning
      → All (λ g. is_available g ≡ false) (live (pool_of s k))
      → length (live (pool_of s k)) < room
      → Answer s k room (after, h)

append-last :
    (hs : List PoolHandle) (h : PoolHandle) → is_live h ≡ true → Memᴰ h (live (hs ++ h ∷ []))
append-last [] h alive = simp alive (Memᴰ.head refl)
append-last (g ∷ gs) h alive = elim (Bool-cases (is_live g)) [
  | inl counts ↦ simp counts (Memᴰ.tail (append-last gs h alive))
  | inr gone ↦ simp gone (append-last gs h alive)
]

pool_of-reserve :
    (s : ContainerSummoner) (k : String × ℕ) (n : ℕ)
    → pool_of (reserve s k n).0 k ≡ pool_of s k ++ (reserve s k n).1 ∷ []
unfolding reserve
pool_of-reserve s k n =
    rw (get-put s.handles k k (pool_of s k ++ (reserve s k n).1 ∷ []), ==-refl k) refl

elsewhere-reserve :
    (s : ContainerSummoner) (k : String × ℕ) (n : ℕ) (j : String × ℕ)
    → (k == j) ≡ false
    → pool_of (reserve s k n).0 j ≡ pool_of s j
unfolding reserve
elsewhere-reserve s k n j apart =
    rw (get-put s.handles k j (pool_of s k ++ (reserve s k n).1 ∷ []), apart) refl

reserve-Answer :
    (s : ContainerSummoner) (k : String × ℕ) (room n : ℕ)
    → All (λ g. is_available g ≡ false) (live (pool_of s k))
    → leb room (length (live (pool_of s k))) ≡ false
    → Answer s k room (reserve s k n)
unfolding reserve is_gone
reserve-Answer s k room n taken fits =
    grown (reserve s k n).0 (reserve s k n).1
      (subst (λ pool. Memᴰ (reserve s k n).1 (live pool)) (sym (pool_of-reserve s k n))
        (append-last (pool_of s k) (reserve s k n).1 refl))
      (pool_of-reserve s k n) (elsewhere-reserve s k n) (refl, refl) refl taken
      (ground (arith, fits))

min-least :
    (hs : List PoolHandle) (h : PoolHandle)
    → min_by_invocations hs ≡ some h
    → Memᴰ h hs × All (NoMore h) hs
unfolding min_by_invocations
min-least [] h e = absurd (ground (arith, e))
min-least (g ∷ gs) h e =
    let same : min_from g gs ≡ h = ground (arith, e) in
    subst (λ x. Memᴰ x (g ∷ gs) × All (NoMore x) (g ∷ gs)) same (min_from-least g gs)

queue_or_grow-Answer :
    (s : ContainerSummoner) (k : String × ℕ) (n : ℕ)
    → All (λ g. is_available g ≡ false) (live (pool_of s k))
    → Answer s k (max 1 n) (queue_or_grow s k (max 1 n))
unfolding queue_or_grow
queue_or_grow-Answer s k n taken = elim (Bool-cases (leb (max 1 n) (length (live (pool_of s k))))) [
  | inl full ↦ elim (Option-cases (min_by_invocations (live (pool_of s k)))) [
    | inl nobody ↦
        absurd (ground (arith, full, min_by_invocations-none (live (pool_of s k)) nobody))
    | inr (h, there) ↦
        let (m, least) = min-least (live (pool_of s k)) h there in
        simp (full, there, queue_or_grow) (queued h m least taken (ground (arith, full)))
  ]
  | inr fits ↦
      simp (fits, queue_or_grow) (reserve-Answer s k (max 1 n) (length (pool_of s k)) taken fits)
]

-- Once the stale members were dismissed, a summon hands back an available live member; or, if none is
-- available and as many are live as may be, the live member with the fewest invocations; or, if none
-- is available and there is room, a new live member of the next identity, which is put behind its
-- pool, leaves every other pool as it is, and whose container alone is started.
pub summon-Answer :
    (stops : PoolHandle → Bool) (s : ContainerSummoner) (k : String × ℕ) (max_concurrency : ℕ)
    → Answer (dismiss_stale stops s k) k (max 1 max_concurrency) (summon stops s k max_concurrency)
unfolding summon reuse_or
summon-Answer stops s k n =
    let fresh = dismiss_stale stops s k in
    let pool = live (pool_of fresh k) in
    elim (Option-cases (first_such is_available pool)) [
      | inl none_free ↦
          simp (none_free, summon)
            (queue_or_grow-Answer fresh k n (first_such-none is_available pool none_free))
      | inr (h, there) ↦
          let (m, free) = first_such-some is_available pool h there in
          simp (there, summon) (reused h m free)
    ]
