-- ===== src/Health/Checking.antt =====
-- The health service, service.go, and the status codes of handler.go.
use my_go.Common.{
  ℕ, zero, ◌+◌, ltb, ℤ, pos, Time, String, List, [], ◌∷◌, ◌++◌, map, length, Option, none, some,
  Bool, true, false, if◌then◌else◌, second, ◌*◌, str_eq,
}
use my_go.Health.{
  text, HealthStatus, status_up, status_down, status_degraded, other_status, HealthCheckResult,
  AggregationStrategy, strategy_empty, strategy_all, strategy_any, strategy_critical, ServiceConfig,
  HealthProvider, Service, HealthResponse,
}

unfoldable pub default_service_config : ServiceConfig
default_service_config = record {
  async_mode = false;
  check_interval = pos (30 * second);
  default_timeout = pos (5 * second);
  aggregation_strategy = strategy_all;
  critical_providers = [];
}

abbrev pub is_zero : ℤ → Bool
is_zero (pos zero) = true
is_zero _ = false

abbrev pub strategy_or_all : AggregationStrategy → AggregationStrategy
strategy_or_all strategy_empty = strategy_all
strategy_or_all s = s

-- In the asynchronous mode a goroutine makes a first check and then one for each tick: each is a call
-- of `check`, in any order with the calls of the other methods.
unfoldable pub new_service : ServiceConfig → Service
new_service c = record {
  config = record c {
    check_interval = if is_zero c.check_interval then pos (30 * second) else c.check_interval;
    default_timeout = if is_zero c.default_timeout then pos (5 * second) else c.default_timeout;
    aggregation_strategy = strategy_or_all c.aggregation_strategy;
  };
  providers = [];
  cached_results = [];
  cached_status = status_down;
  last_check = 0;
}

unfoldable pub register_provider : HealthProvider → Service → Service
register_provider p s = record s { providers = s.providers ++ (p ∷ []) }

-- The counters of `aggregateAll`.
pub record Counts : Type 0 where
  pub up_count : ℕ
  pub down_count : ℕ
  pub degraded_count : ℕ

abbrev pub count_status : HealthStatus → Counts → Counts
count_status status_up c = record c { up_count = c.up_count + 1 }
count_status status_down c = record c { down_count = c.down_count + 1 }
count_status status_degraded c = record c { degraded_count = c.degraded_count + 1 }
count_status (other_status t) c = c

unfoldable pub count_all : List HealthCheckResult → Counts → Counts
count_all [] c = c
count_all (r ∷ rs) c = count_all rs (count_status r.status c)

unfoldable pub aggregate_all : List HealthCheckResult → HealthStatus
aggregate_all rs =
    let c = count_all rs (record { up_count = 0; down_count = 0; degraded_count = 0 }) in
    if ltb 0 c.down_count
    then status_down
    else if ltb 0 c.degraded_count
    then status_degraded
    else status_up

abbrev pub is_up : HealthStatus → Bool
is_up status_up = true
is_up _ = false

abbrev pub is_down : HealthStatus → Bool
is_down status_down = true
is_down _ = false

abbrev pub is_degraded : HealthStatus → Bool
is_degraded status_degraded = true
is_degraded _ = false

-- A loop that returns at the first result whose status passes.
unfoldable pub has_status : (HealthStatus → Bool) → List HealthCheckResult → Bool
has_status p [] = false
has_status p (r ∷ rs) = let rest = has_status p rs in if p r.status then true else rest

unfoldable pub aggregate_any : List HealthCheckResult → HealthStatus
aggregate_any rs =
    if has_status is_up rs
    then status_up
    else if has_status is_degraded rs
    then status_degraded
    else status_down

-- The flags of `aggregateCritical`.
pub record Flags : Type 0 where
  pub critical_down : Bool
  pub critical_degraded : Bool
  pub has_non_critical_down : Bool

unfoldable pub is_critical : List String → String → Bool
is_critical [] name = false
is_critical (c ∷ cs) name = let rest = is_critical cs name in if str_eq c name then true else rest

abbrev pub flag_status : Bool → HealthStatus → Flags → Flags
flag_status true status_down f = record f { critical_down = true }
flag_status true status_degraded f = record f { critical_degraded = true }
flag_status false status_down f = record f { has_non_critical_down = true }
flag_status _ _ f = f

unfoldable pub flag_all : List String → List HealthCheckResult → Flags → Flags
flag_all critical [] f = f
flag_all critical (r ∷ rs) f =
    flag_all critical rs (flag_status (is_critical critical r.name) r.status f)

unfoldable pub aggregate_critical : List String → List HealthCheckResult → HealthStatus
aggregate_critical critical rs =
    let f = flag_all critical rs (record {
      critical_down = false;
      critical_degraded = false;
      has_non_critical_down = false;
    }) in
    if f.critical_down
    then status_down
    else if f.critical_degraded
    then status_degraded
    else if f.has_non_critical_down
    then status_degraded
    else status_up

abbrev pub aggregate_by : AggregationStrategy → List String → List HealthCheckResult → HealthStatus
aggregate_by strategy_any critical rs = aggregate_any rs
aggregate_by strategy_critical critical rs = aggregate_critical critical rs
aggregate_by _ critical rs = aggregate_all rs

unfoldable pub aggregate_status : ServiceConfig → List HealthCheckResult → HealthStatus
aggregate_status c [] = status_down
aggregate_status c (r ∷ rs) = aggregate_by c.aggregation_strategy c.critical_providers (r ∷ rs)

abbrev pub or_timeout : Time → String → Option HealthCheckResult → HealthCheckResult
or_timeout now name (some r) = r
or_timeout now name none = record {
  name = name;
  status = status_down;
  details = ("error", text "timeout") ∷ [];
  checked_at = now;
  error = "health check timeout";
}

-- The checks run at the same time, and each result has its provider's place.
abbrev pub results_of : Time → Service → List HealthCheckResult
results_of now s =
    map (λ p. or_timeout now p.name (p.check now s.config.default_timeout)) s.providers

abbrev pub checked : Time → List HealthCheckResult → HealthStatus → Service → Service
checked now results status s =
    if s.config.async_mode
    then record s { cached_results = results; cached_status = status; last_check = now }
    else s

abbrev pub check_providers :
    Time → List HealthProvider → Service → Service × List HealthCheckResult × HealthStatus
check_providers now [] s = (s, [], status_down)
check_providers now (p ∷ ps) s =
    let results = results_of now s in
    let status = aggregate_status s.config results in
    (checked now results status s, results, status)

unfoldable pub check : Time → Service → Service × List HealthCheckResult × HealthStatus
check now s = check_providers now s.providers s

unfoldable pub get_cached_results : Time → Service → Service × List HealthCheckResult × HealthStatus
get_cached_results now s =
    if s.config.async_mode then (s, s.cached_results, s.cached_status) else check now s

abbrev pub response : Time → Service × List HealthCheckResult × HealthStatus → HealthResponse
response now (s, results, status) = record {
  status = status;
  timestamp = now;
  checks = results;
  total_checks = pos (length results);
  strategy = s.config.aggregation_strategy;
}

unfoldable pub get_health_response : Time → Service → HealthResponse
get_health_response now s =
    response now (if s.config.async_mode then get_cached_results now s else check now s)

-- `HTTPHandler` and `ReadinessHandler`, as far as the status code.
unfoldable pub http_status_code : HealthResponse → ℕ
http_status_code r = if is_down r.status then 503 else 200

unfoldable pub readiness_status_code : HealthResponse → ℕ
readiness_status_code r = if is_up r.status then 200 else 503
