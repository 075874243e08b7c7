-- ===== src/Service/ContainerPool.antt =====
-- The pools of axo_endpoint/service/container/spawner.py. A handle's `identity` stands for the object
-- itself; whether a container can be stopped is an argument. The background threads are the handles
-- in `spawning`, the last first; what they and the runtime do to a handle is `update_handle`.
pub mod Sweeps
pub mod Live
pub mod Cap
pub mod Summon
use activex_endpoint.Prelude.{
  ℕ, zero, ◌+◌, max, String, Bool, true, false, not, ◌&&◌, Option, none, some, List, [], ◌∷◌, ◌++◌,
  map, filter, foldl, length, is_empty, ltb, leb, nat_beq, if◌then◌else◌, string_eq, nat_eq,
  pair_eq,
}
use activex_endpoint.Prelude.Dict
use activex_endpoint.Prelude.Dict.{Dict}
use activex_endpoint.Consensus.Ledger.{pool_metrics_key}
use activex_endpoint.Service.ContainerNames.{sanitize_container_name}
use activex_endpoint.Service.ContainerJobs.{
  ContainerStatus, starting, bootstrapping, ready, busy, idle, crashed, dismissed, is_gone,
}

pub record PoolHandle : Type 0 where
  pub identity : ℕ
  pub function_id : String
  pub version : ℕ
  pub service_name : String
  pub pool_index : ℕ
  pub status : ContainerStatus
  pub last_used : ℕ
  pub invocation_count : ℕ

-- `CONTAINER_DISMISSED_EVENT` with `FUNCTION_STOPPED_EVENT`.
pub record Stopped : Type 0 where
  pub function_id : String
  pub version : ℕ
  pub service_name : String
  pub pool_index : ℕ
  pub reason : String

pub record ContainerSummoner : Type 0 where
  pub handles : Dict (String × ℕ) (List PoolHandle)
  pub next_identity : ℕ
  pub spawning : List PoolHandle
  pub events : List Stopped

abbrev pub init : ContainerSummoner
init = record { handles = []; next_identity = 0; spawning = []; events = [] }

abbrev pub key : PoolHandle → String × ℕ
key h = (h.function_id, h.version)

-- `self._handles.get((function_id, version), [])`
abbrev pub or_empty : Option (List PoolHandle) → List PoolHandle
or_empty none = []
or_empty (some pool) = pool

abbrev pub pool_of : ContainerSummoner → String × ℕ → List PoolHandle
pool_of s k = or_empty (Dict.get s.handles k)

abbrev pub is_live : PoolHandle → Bool
is_live h = not (is_gone h.status)

abbrev pub live : List PoolHandle → List PoolHandle
live pool = filter is_live pool

unfoldable pub is_available : PoolHandle → Bool
is_available h = elim h.status [ busy ↦ false | starting ↦ false | _ ↦ true ]

-- `next((h for h in pool if p(h)), None)`
unfoldable pub first_such : (PoolHandle → Bool) → List PoolHandle → Option PoolHandle
first_such p [] = none
first_such p (h ∷ hs) = let rest = first_such p hs in if p h then some h else rest

-- `min(pool, key=lambda h: h.invocation_count)`, of `h` and the others.
unfoldable pub min_from : PoolHandle → List PoolHandle → PoolHandle
min_from h [] = h
min_from h (g ∷ gs) = min_from (if ltb g.invocation_count h.invocation_count then g else h) gs

unfoldable pub min_by_invocations : List PoolHandle → Option PoolHandle
unfolding min_from
min_by_invocations [] = none
min_by_invocations (h ∷ hs) = some (min_from h hs)

-- A change of the handle's fields, seen by all that hold it.
unfoldable pub change_in : ℕ → (PoolHandle → PoolHandle) → List PoolHandle → List PoolHandle
change_in i f [] = []
change_in i f (h ∷ hs) = (if nat_beq h.identity i then f h else h) ∷ change_in i f hs

unfoldable pub update_handle :
    ContainerSummoner → PoolHandle → (PoolHandle → PoolHandle) → ContainerSummoner
unfolding change_in
update_handle s h f = elim (Dict.get s.handles (key h)) [
  | none ↦ s
  | some pool ↦ record s { handles = Dict.put s.handles (key h) (change_in h.identity f pool) }
]

-- `pool.remove(handle)`
unfoldable pub remove : ℕ → List PoolHandle → List PoolHandle
remove i [] = []
remove i (h ∷ hs) = let rest = remove i hs in if nat_beq h.identity i then hs else h ∷ rest

unfoldable pub put_or_drop :
    Dict (String × ℕ) (List PoolHandle)
    → String × ℕ
    → List PoolHandle
    → Dict (String × ℕ) (List PoolHandle)
put_or_drop handles k [] = Dict.pop handles k
put_or_drop handles k (h ∷ hs) = Dict.put handles k (h ∷ hs)

unfoldable pub remove_from_pool :
    Dict (String × ℕ) (List PoolHandle) → PoolHandle → Dict (String × ℕ) (List PoolHandle)
unfolding put_or_drop remove
remove_from_pool handles h = elim (Dict.get handles (key h)) [
  | none ↦ handles
  | some pool ↦ put_or_drop handles (key h) (remove h.identity pool)
]

abbrev pub as_dismissed : PoolHandle → PoolHandle
as_dismissed h = record h { status = dismissed }

unfoldable pub stopped_of : PoolHandle → String → Stopped
stopped_of h reason = record {
  function_id = h.function_id;
  version = h.version;
  service_name = h.service_name;
  pool_index = h.pool_index;
  reason = reason;
}

-- A new handle, reserved in its pool before its thread starts.
unfoldable pub reserve : ContainerSummoner → String × ℕ → ℕ → ContainerSummoner × PoolHandle
reserve s (function_id, version) pool_index =
    let h : PoolHandle = record {
      identity = s.next_identity;
      function_id = function_id;
      version = version;
      service_name = sanitize_container_name function_id version pool_index;
      pool_index = pool_index;
      status = starting;
      last_used = 0;
      invocation_count = 0;
    } in
    (
      record s {
        handles =
            Dict.put s.handles (function_id, version) (pool_of s (function_id, version) ++ h ∷ []);
        next_identity = s.next_identity + 1;
        spawning = h ∷ s.spawning;
      },
      h,
    )

-- With no live member the pool has room, so the last case's default never shows.
unfoldable pub queue_or_grow : ContainerSummoner → String × ℕ → ℕ → ContainerSummoner × PoolHandle
unfolding reserve min_by_invocations
queue_or_grow s k max_concurrency =
    let pool = pool_of s k in
    let grown = reserve s k (length pool) in
    if leb max_concurrency (length (live pool))
    then (elim (min_by_invocations (live pool)) [ none ↦ grown | some h ↦ (s, h) ])
    else grown

unfoldable pub reuse_or :
    ContainerSummoner × PoolHandle
    → ContainerSummoner
    → Option PoolHandle
    → ContainerSummoner × PoolHandle
reuse_or otherwise s none = otherwise
reuse_or otherwise s (some h) = (s, h)

module _ (stops : PoolHandle → Bool) where
  -- A container that cannot be stopped stays in its pool, as dismissed.
  unfoldable pub dismiss : ContainerSummoner → PoolHandle → String → ContainerSummoner
  unfolding update_handle remove_from_pool stopped_of
  dismiss s h reason =
      let marked = update_handle s h as_dismissed in
      if stops h
      then record marked {
        handles = remove_from_pool marked.handles h;
        events = stopped_of h reason ∷ marked.events;
      }
      else marked

  unfoldable pub dismiss_each : ContainerSummoner → String → List PoolHandle → ContainerSummoner
  unfolding dismiss
  dismiss_each s reason [] = s
  dismiss_each s reason (h ∷ hs) = dismiss_each (dismiss s h reason) reason hs

  unfoldable pub dismiss_stale : ContainerSummoner → String × ℕ → ContainerSummoner
  unfolding dismiss_each
  dismiss_stale s k =
      dismiss_each s "stale_before_respawn"
        (filter (λ (h : PoolHandle). is_gone h.status) (pool_of s k))

  unfoldable pub summon : ContainerSummoner → String × ℕ → ℕ → ContainerSummoner × PoolHandle
  unfolding dismiss_stale first_such queue_or_grow reuse_or
  summon s0 k max_concurrency =
      let s = dismiss_stale s0 k in
      reuse_or (queue_or_grow s k (max 1 max_concurrency)) s
        (first_such is_available (live (pool_of s k)))

  unfoldable pub find_idle : ContainerSummoner → String × ℕ → ContainerSummoner × Option PoolHandle
  unfolding dismiss_stale first_such
  find_idle s0 k = let s = dismiss_stale s0 k in (s, first_such is_available (live (pool_of s k)))

  unfoldable pub summon_at : ContainerSummoner → String × ℕ → ℕ → ContainerSummoner × PoolHandle
  unfolding dismiss_stale reserve
  summon_at s k pool_index = reserve (dismiss_stale s k) k pool_index
