-- ===== src/Service/ContainerPool/Sweeps.antt =====
-- What spawner.py reads of all pools, and its sweeps.
use activex_endpoint.Prelude.{
  ℕ, ◌-◌, String, Bool, true, false, ◌&&◌, Option, List, [], ◌∷◌, ◌++◌, map, filter, length, ltb,
  leb, if◌then◌else◌, string_eq, nat_eq, pair_eq,
}
use activex_endpoint.Prelude.Dict
use activex_endpoint.Prelude.Dict.{Dict}
use activex_endpoint.Consensus.Ledger.{pool_metrics_key}
use activex_endpoint.Service.ContainerJobs.{ContainerStatus, ready, idle, crashed}
use activex_endpoint.Service.ContainerPool.{
  PoolHandle, ContainerSummoner, pool_of, is_live, live, first_such, min_by_invocations,
  dismiss_each,
}

unfoldable pub concat_pools : Dict (String × ℕ) (List PoolHandle) → List PoolHandle
concat_pools [] = []
concat_pools ((k, pool) ∷ d) = pool ++ concat_pools d

unfoldable pub list_handles : ContainerSummoner → List PoolHandle
unfolding concat_pools
list_handles s = concat_pools s.handles

unfoldable pub get_handle : ContainerSummoner → String × ℕ → Option PoolHandle
unfolding first_such
get_handle s k = first_such is_live (pool_of s k)

unfoldable pub least_busy : ContainerSummoner → String × ℕ → Option PoolHandle
unfolding min_by_invocations
least_busy s k = min_by_invocations (live (pool_of s k))

unfoldable pub is_status_idle : ContainerStatus → Bool
is_status_idle idle = true
is_status_idle s = false

unfoldable pub is_status_crashed : ContainerStatus → Bool
is_status_crashed crashed = true
is_status_crashed s = false

unfoldable pub is_ready_or_idle : PoolHandle → Bool
is_ready_or_idle h = elim h.status [ ready ↦ true | idle ↦ true | _ ↦ false ]

pub record PoolCounts : Type 0 where
  pub live_count : ℕ
  pub idle_count : ℕ

unfoldable pub counts_of : List PoolHandle → PoolCounts
unfolding is_ready_or_idle
counts_of pool = record {
  live_count = length (live pool);
  idle_count = length (filter is_ready_or_idle (live pool));
}

unfoldable pub summarise :
    Dict String PoolCounts → Dict (String × ℕ) (List PoolHandle) → Dict String PoolCounts
unfolding pool_metrics_key counts_of
summarise summary [] = summary
summarise summary (((function_id, version), pool) ∷ d) =
    summarise (Dict.put summary (pool_metrics_key function_id version) (counts_of pool)) d

unfoldable pub pool_summary : ContainerSummoner → Dict String PoolCounts
unfolding summarise
pool_summary s = summarise [] s.handles

-- Times are whole units; `now` is not before a handle's last use.
unfoldable pub idle_too_long : ℕ → ℕ → PoolHandle → Bool
unfolding is_status_idle
idle_too_long ttl_seconds now h =
    is_status_idle h.status && ltb 0 h.last_used && ltb ttl_seconds (now - h.last_used)

abbrev pub function_ids : List PoolHandle → List String
function_ids hs = map (λ (h : PoolHandle). h.function_id) hs

module _ (stops : PoolHandle → Bool) where
  -- A sweep: the handles that `due` finds are dismissed, one by one.
  unfoldable pub sweep :
      ContainerSummoner → String → (PoolHandle → Bool) → ContainerSummoner × List String
  unfolding list_handles dismiss_each
  sweep s reason due =
      let candidates = filter due (list_handles s) in
      (dismiss_each stops s reason candidates, function_ids candidates)

  unfoldable pub sweep_idle : ContainerSummoner → ℕ → ℕ → ContainerSummoner × List String
  unfolding sweep idle_too_long
  sweep_idle s ttl_seconds now = sweep s "idle_ttl" (idle_too_long ttl_seconds now)

  -- 0 is unlimited.
  unfoldable pub sweep_max_invocations : ContainerSummoner → ℕ → ContainerSummoner × List String
  unfolding sweep
  sweep_max_invocations s max_invocations =
      if leb max_invocations 0
      then (s, [])
      else sweep s "max_invocations" (λ (h : PoolHandle). leb max_invocations h.invocation_count)

  unfoldable pub sweep_crashed : ContainerSummoner → ContainerSummoner × List String
  unfolding sweep is_status_crashed
  sweep_crashed s = sweep s "crashed" (λ (h : PoolHandle). is_status_crashed h.status)
