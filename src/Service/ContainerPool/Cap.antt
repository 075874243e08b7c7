-- ===== src/Service/ContainerPool/Cap.antt =====
-- How many live members the pools of spawner.py have.
use activex_endpoint.Prelude.{
  ℕ, ◌+◌, ◌≤◌, ◌≡◌, ap, subst, max, inl, inr, String, Bool, false, List, [], ◌∷◌, filter, length,
  leb, ◌==◌, if◌then◌else◌, arith, Bool-cases, Option-cases, string_eq, nat_eq, pair_eq,
}
use activex_endpoint.Prelude.Dict
use activex_endpoint.Prelude.Dict.{Dict, get-put, get-pop, get, put}
use activex_endpoint.Service.ContainerJobs.{ContainerStatus, is_gone}
use activex_endpoint.Service.ContainerPool.{
  PoolHandle, ContainerSummoner, init, pool_of, live, is_available, first_such, min_by_invocations,
  update_handle, dismiss, dismiss_stale, reserve, queue_or_grow, reuse_or, summon, find_idle,
}
use activex_endpoint.Service.ContainerPool.Sweeps.{
  sweep, sweep_idle, sweep_max_invocations, sweep_crashed, list_handles, idle_too_long,
  is_status_crashed,
}
use activex_endpoint.Service.ContainerPool.Live.{
  live_count, NeverRevives, update_handle-live, reserve-live, dismiss-live, dismiss_each-live,
  min_by_invocations-none,
}

-- The members that are live, key by key, fit what the key's functions allow.
abbrev pub IsCapped : (String × ℕ → ℕ) → ContainerSummoner → Type 0
IsCapped caps s = (k : String × ℕ) → live_count s k ≤ max 1 (caps k)

reserve-IsCapped :
    (caps : String × ℕ → ℕ) (s : ContainerSummoner) (j : String × ℕ) (n : ℕ)
    → leb (max 1 (caps j)) (live_count s j) ≡ false
    → IsCapped caps s
    → IsCapped caps (reserve s j n).0
reserve-IsCapped caps s j n room h k = elim (Bool-cases (j == k)) [
  | inl same ↦
      let same_caps = ap caps ((pair_eq.beq_iff j k).0 same) in
      let grown : live_count (reserve s j n).0 k ≤ live_count s j + 1 =
        subst
          (λ b. live_count (reserve s j n).0 k ≤ (if b then live_count s j + 1 else live_count s k))
          same (reserve-live s j k n) in
      ground (arith, room, same_caps, grown)
  | inr other ↦
      let kept : live_count (reserve s j n).0 k ≤ live_count s k =
        subst
          (λ b. live_count (reserve s j n).0 k ≤ (if b then live_count s j + 1 else live_count s k))
          other (reserve-live s j k n) in
      omega (arith, kept, h k)
]

queue_or_grow-IsCapped :
    (caps : String × ℕ → ℕ) (s : ContainerSummoner) (j : String × ℕ)
    → IsCapped caps s
    → IsCapped caps (queue_or_grow s j (max 1 (caps j))).0
unfolding queue_or_grow
queue_or_grow-IsCapped caps s j h k = elim (Bool-cases (leb (max 1 (caps j)) (live_count s j))) [
  | inl full ↦ elim (Option-cases (min_by_invocations (live (pool_of s j)))) [
    | inl nobody ↦
        absurd (ground (arith, full, min_by_invocations-none (live (pool_of s j)) nobody))
    | inr (g, there) ↦ simp (full, there, queue_or_grow) (h k)
  ]
  | inr room ↦
      simp (room, queue_or_grow) (reserve-IsCapped caps s j (length (pool_of s j)) room h k)
]

dismiss_stale-IsCapped :
    (caps : String × ℕ → ℕ) (stops : PoolHandle → Bool) (s : ContainerSummoner) (j : String × ℕ)
    → IsCapped caps s
    → IsCapped caps (dismiss_stale stops s j)
unfolding dismiss_stale
dismiss_stale-IsCapped caps stops s j h k = omega (
  arith,
  h k,
  dismiss_each-live stops s "stale_before_respawn"
      (filter (λ (g : PoolHandle). is_gone g.status) (pool_of s j)) k,
)

summon-IsCapped :
    (caps : String × ℕ → ℕ) (stops : PoolHandle → Bool) (s : ContainerSummoner) (j : String × ℕ)
    → IsCapped caps s
    → IsCapped caps (summon stops s j (caps j)).0
unfolding summon reuse_or
summon-IsCapped caps stops s j h =
    let fresh = dismiss_stale stops s j in
    elim (Option-cases (first_such is_available (live (pool_of fresh j)))) [
      | inl none_free ↦
          simp (none_free, summon)
            (queue_or_grow-IsCapped caps fresh j (dismiss_stale-IsCapped caps stops s j h))
      | inr (g, there) ↦ simp (there, summon) (dismiss_stale-IsCapped caps stops s j h)
    ]

sweep-IsCapped :
    (caps : String × ℕ → ℕ) (stops : PoolHandle → Bool) (s : ContainerSummoner) (reason : String)
    (due : PoolHandle → Bool)
    → IsCapped caps s
    → IsCapped caps (sweep stops s reason due).0
unfolding sweep
sweep-IsCapped caps stops s reason due h k =
    omega (arith, h k, dismiss_each-live stops s reason (filter due (list_handles s)) k)

-- What a runtime or a background thread writes into a handle that is neither crashed nor dismissed.
unfoldable pub written : ContainerStatus → ℕ → ℕ → PoolHandle → PoolHandle
written status last_used invocation_count h =
    if is_gone h.status
    then h
    else record h { status = status; last_used = last_used; invocation_count = invocation_count }

-- One call of the summoner, or one write into a handle.
pub data PoolEvent : Type 0 where
  summons looks : String × ℕ → PoolEvent
  dismisses : PoolHandle → String → PoolEvent
  sweeps_idle : ℕ → ℕ → PoolEvent
  sweeps_max_invocations : ℕ → PoolEvent
  sweeps_crashed : PoolEvent
  writes : PoolHandle → ContainerStatus → ℕ → ℕ → PoolEvent

unfoldable pub serve :
    (String × ℕ → ℕ) → (PoolHandle → Bool) → ContainerSummoner → PoolEvent → ContainerSummoner
serve caps stops s (summons k) = (summon stops s k (caps k)).0
serve caps stops s (looks k) = (find_idle stops s k).0
serve caps stops s (dismisses h reason) = dismiss stops s h reason
serve caps stops s (sweeps_idle ttl now) = (sweep_idle stops s ttl now).0
serve caps stops s (sweeps_max_invocations n) = (sweep_max_invocations stops s n).0
serve caps stops s sweeps_crashed = (sweep_crashed stops s).0
serve caps stops s (writes h status last_used invocation_count) =
    update_handle s h (written status last_used invocation_count)

-- Events in turn, each with the containers that can be stopped then.
unfoldable pub serve_all :
    (String × ℕ → ℕ)
    → ContainerSummoner
    → List ((PoolHandle → Bool) × PoolEvent)
    → ContainerSummoner
serve_all caps s [] = s
serve_all caps s ((stops, e) ∷ es) = serve_all caps (serve caps stops s e) es

written-NeverRevives :
    (status : ContainerStatus) (last_used invocation_count : ℕ)
    → NeverRevives (written status last_used invocation_count)
unfolding written
written-NeverRevives status l n h gone = ground (arith, gone)

serve-IsCapped :
    (caps : String × ℕ → ℕ) (stops : PoolHandle → Bool) (s : ContainerSummoner) (e : PoolEvent)
    → IsCapped caps s
    → IsCapped caps (serve caps stops s e)
unfolding serve sweep_idle sweep_max_invocations sweep_crashed find_idle
serve-IsCapped caps stops s (summons j) h = summon-IsCapped caps stops s j h
serve-IsCapped caps stops s (looks j) h = dismiss_stale-IsCapped caps stops s j h
serve-IsCapped caps stops s (dismisses g reason) h =
    (λ k. omega (arith, h k, dismiss-live stops s g reason k))
serve-IsCapped caps stops s (sweeps_idle ttl now) h =
    sweep-IsCapped caps stops s "idle_ttl" (idle_too_long ttl now) h
serve-IsCapped caps stops s (sweeps_max_invocations n) h = elim (Bool-cases (leb n 0)) [
  | inl unlimited ↦ simp (unlimited, serve, sweep_max_invocations) h
  | inr limited ↦
      simp (limited, serve, sweep_max_invocations)
        (sweep-IsCapped caps stops s "max_invocations"
          (λ (g : PoolHandle). leb n g.invocation_count) h)
]
serve-IsCapped caps stops s sweeps_crashed h =
    sweep-IsCapped caps stops s "crashed" (λ (g : PoolHandle). is_status_crashed g.status) h
serve-IsCapped caps stops s (writes g status l n) h = (λ k.
    omega
      (arith, h k, update_handle-live s g (written status l n) k (written-NeverRevives status l n)))

all-IsCapped :
    (caps : String × ℕ → ℕ) (s : ContainerSummoner) (es : List ((PoolHandle → Bool) × PoolEvent))
    → IsCapped caps s
    → IsCapped caps (serve_all caps s es)
unfolding serve_all
all-IsCapped caps s [] h = h
all-IsCapped caps s ((stops, e) ∷ es) h =
    all-IsCapped caps (serve caps stops s e) es (serve-IsCapped caps stops s e h)

-- From empty pools on, after any calls of summon, find_idle, dismiss and the sweeps, whether or not
-- the containers can be stopped, and any writes into handles that are neither crashed nor dismissed:
-- no function version has more live members than its max_concurrency, or than one.
pub serve_all-IsCapped :
    (caps : String × ℕ → ℕ) (es : List ((PoolHandle → Bool) × PoolEvent)) (k : String × ℕ)
    → live_count (serve_all caps init es) k ≤ max 1 (caps k)
unfolding Dict.get
serve_all-IsCapped caps es = all-IsCapped caps init es (λ k. omega arith)
