-- ===== src/Consensus/Ledger/Metrics.antt =====
-- The key of a pool in the gossiped metrics.
use activex_endpoint.Prelude.{ℕ, String, ◌≡◌, some, arith}
use activex_endpoint.Text.{decimal}
use activex_endpoint.Text.Decimal.{to_version-decimal, decimal-NoColon}
use activex_endpoint.Text.Partition.{rpartition_colons-concat}
use activex_endpoint.Consensus.Ledger.{pool_metrics_key, parse_pool_metrics_key}

-- Parsing the metrics key of any function id, colons included, and any version gives them back.
parse_pool_metrics_key-pool_metrics_key :
    (function_id : String) (version : ℕ)
    → parse_pool_metrics_key (pool_metrics_key function_id version) ≡ some (function_id, version)
unfolding pool_metrics_key parse_pool_metrics_key
parse_pool_metrics_key-pool_metrics_key function_id version = ground (
  arith,
  rpartition_colons-concat function_id (decimal version) (decimal-NoColon version),
  to_version-decimal version,
)
