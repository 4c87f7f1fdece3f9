-- ===== src/Metrics.antt =====
-- distcache/metrics.py: what the code tells its metrics. The client of Prometheus is not read here: a call
-- is a value, and whether it is installed is a parameter of `start`.
use sd_03_distributed_cache.Prelude.{
  Bool, true, false, List, Bytes, Result, ok, raise, if◌then◌else◌,
}
use sd_03_distributed_cache.Prelude.Int.{ℤ, pos, ltb_ℤ}

-- The metrics. Nothing here calls `evictions_total`.
pub data Metric : Type 0 where
  ops_total : Metric
  op_latency : Metric
  cache_size : Metric
  cache_maxsize : Metric
  evictions_total : Metric
  repl_offset : Metric
  repl_lag : Metric
  role_gauge : Metric

-- `metric.labels(...).inc()`, `metric.labels(...).time()` and `metric.labels(...).set(value)`.
pub data Call : Type 0 where
  inc : Metric → List Bytes → Call
  time : Metric → List Bytes → Call
  set : Metric → List Bytes → ℤ → Call

abbrev pub is_zero : ℤ → Bool
is_zero n = if ltb_ℤ n (pos 0) then false else (if ltb_ℤ (pos 0) n then false else true)

-- `start`, where `start_http_server` may raise.
unfoldable pub start : Bool → (ℤ → Result {0} Unit) → ℤ → Result {0} Bool
start enabled start_http_server port =
    if is_zero port
    then ok false
    else (if enabled
        then (elim (start_http_server port) [ raise x ↦ raise x | ok u ↦ ok true ])
        else ok false)
