-- ===== src/Service/ContainerPool/Live.antt =====
-- The live members of the pools of spawner.py, as handles change and go.
use activex_endpoint.Prelude.{
  ℕ, ◌+◌, ◌≤◌, ◌≡◌, refl, subst, inl, inr, String, Bool, false, none, some, List, [], ◌∷◌, ◌++◌,
  length, ◌==◌, if◌then◌else◌, arith, Bool-cases, Option-cases, string_eq, nat_eq, pair_eq,
}
use activex_endpoint.Prelude.Dict
use activex_endpoint.Prelude.Dict.{Dict, get-put, get-pop, get, put}
use activex_endpoint.Service.ContainerJobs.{is_gone}
use activex_endpoint.Service.ContainerPool.{
  PoolHandle, ContainerSummoner, key, or_empty, pool_of, is_live, live, min_by_invocations,
  change_in, update_handle, remove, put_or_drop, remove_from_pool, as_dismissed, dismiss,
  dismiss_each, reserve,
}

abbrev pub live_count : ContainerSummoner → String × ℕ → ℕ
live_count s k = length (live (pool_of s k))

abbrev pub NeverRevives : (PoolHandle → PoolHandle) → Type 0
NeverRevives f = (h : PoolHandle) → is_live h ≡ false → is_live (f h) ≡ false

change_in-live :
    (i : ℕ) (f : PoolHandle → PoolHandle) (hs : List PoolHandle)
    → NeverRevives f
    → length (live (change_in i f hs)) ≤ length (live hs)
unfolding change_in
change_in-live i f [] r = omega arith
change_in-live i f (h ∷ hs) r = ground (arith, r h, change_in-live i f hs r)

remove-live : (i : ℕ) (hs : List PoolHandle) → length (live (remove i hs)) ≤ length (live hs)
unfolding remove
remove-live i [] = omega arith
remove-live i (h ∷ hs) = ground (arith, remove-live i hs)

-- A pool that is replaced by one with no more live members.
at_replaced :
    (d : Dict (String × ℕ) (List PoolHandle)) (j k : String × ℕ) (old pool : List PoolHandle)
    → Dict.get d j ≡ some old
    → length (live pool) ≤ length (live old)
    → length (live (if j == k then pool else or_empty (Dict.get d k)))
      ≤ length (live (or_empty (Dict.get d k)))
at_replaced d j k old pool there fits = elim (Bool-cases (j == k)) [
  | inl same ↦
      let here : Dict.get d k ≡ some old =
        subst (λ i. Dict.get d i ≡ some old) ((pair_eq.beq_iff j k).0 same) there in
      rw (same, here) fits
  | inr other ↦ rw other (omega arith)
]

or_empty-get-put :
    (d : Dict (String × ℕ) (List PoolHandle)) (j k : String × ℕ) (pool : List PoolHandle)
    → or_empty (Dict.get (Dict.put d j pool) k) ≡ (if j == k then pool else or_empty (Dict.get d k))
or_empty-get-put d j k pool = ground (arith, get-put d j k pool)

pub update_handle-live :
    (s : ContainerSummoner) (h : PoolHandle) (f : PoolHandle → PoolHandle) (k : String × ℕ)
    → NeverRevives f
    → live_count (update_handle s h f) k ≤ live_count s k
unfolding update_handle
update_handle-live s h f k r = elim (Option-cases (Dict.get s.handles (key h))) [
  | inl missing ↦ simp (missing, update_handle) (omega arith)
  | inr (pool, there) ↦
      simp (there, update_handle)
        (rw (or_empty-get-put s.handles (key h) k (change_in h.identity f pool)) (
          at_replaced s.handles (key h) k pool (change_in h.identity f pool) there
            (change_in-live h.identity f pool r)))
]

put_or_drop-get :
    (d : Dict (String × ℕ) (List PoolHandle)) (j k : String × ℕ) (pool : List PoolHandle)
    → or_empty (Dict.get (put_or_drop d j pool) k)
      ≡ (if j == k then pool else or_empty (Dict.get d k))
unfolding put_or_drop
put_or_drop-get d j k [] = ground (arith, get-pop d j k)
put_or_drop-get d j k (h ∷ hs) = or_empty-get-put d j k (h ∷ hs)

remove_from_pool-live :
    (d : Dict (String × ℕ) (List PoolHandle)) (h : PoolHandle) (k : String × ℕ)
    → length (live (or_empty (Dict.get (remove_from_pool d h) k)))
      ≤ length (live (or_empty (Dict.get d k)))
unfolding remove_from_pool
remove_from_pool-live d h k = elim (Option-cases (Dict.get d (key h))) [
  | inl missing ↦ rw (missing, remove_from_pool) (omega arith)
  | inr (pool, there) ↦
      rw (there, remove_from_pool)
        (rw (put_or_drop-get d (key h) k (remove h.identity pool)) (
          at_replaced d (key h) k pool (remove h.identity pool) there
            (remove-live h.identity pool)))
]

append-live :
    (hs : List PoolHandle) (h : PoolHandle) → length (live (hs ++ h ∷ [])) ≤ length (live hs) + 1
append-live [] h = ground arith
append-live (g ∷ hs) h = ground (arith, append-live hs h)

pub reserve-live :
    (s : ContainerSummoner) (j k : String × ℕ) (n : ℕ)
    → live_count (reserve s j n).0 k ≤ (if j == k then live_count s j + 1 else live_count s k)
unfolding reserve
reserve-live s j k n =
    let h = (reserve s j n).1 in
    rw (or_empty-get-put s.handles j k (pool_of s j ++ h ∷ [])) (elim (Bool-cases (j == k)) [
      | inl same ↦ rw same (append-live (pool_of s j) h)
      | inr other ↦ rw other (omega arith)
    ])

as_dismissed-NeverRevives : NeverRevives as_dismissed
unfolding is_gone
as_dismissed-NeverRevives h gone = refl

pub dismiss-live :
    (stops : PoolHandle → Bool) (s : ContainerSummoner) (h : PoolHandle) (reason : String)
    (k : String × ℕ)
    → live_count (dismiss stops s h reason) k ≤ live_count s k
unfolding dismiss
dismiss-live stops s h reason k =
    let marked = update_handle s h as_dismissed in
    elim (Bool-cases (stops h)) [
      | inl stopped ↦
          simp (stopped, dismiss)
            (omega (
              arith,
              remove_from_pool-live marked.handles h k,
              update_handle-live s h as_dismissed k as_dismissed-NeverRevives,
            ))
      | inr stays ↦
          simp (stays, dismiss) (update_handle-live s h as_dismissed k as_dismissed-NeverRevives)
    ]

pub dismiss_each-live :
    (stops : PoolHandle → Bool) (s : ContainerSummoner) (reason : String) (hs : List PoolHandle)
    (k : String × ℕ)
    → live_count (dismiss_each stops s reason hs) k ≤ live_count s k
unfolding dismiss_each
dismiss_each-live stops s reason [] k = omega arith
dismiss_each-live stops s reason (h ∷ hs) k = omega (
  arith,
  dismiss-live stops s h reason k,
  dismiss_each-live stops (dismiss stops s h reason) reason hs k,
)

pub min_by_invocations-none : (hs : List PoolHandle) → min_by_invocations hs ≡ none → length hs ≡ 0
unfolding min_by_invocations
min_by_invocations-none [] h = refl
min_by_invocations-none (g ∷ gs) h = absurd (ground (arith, h))
