-- ===== src/Health/Tests.antt =====
-- A run of the health service on concrete results.
use my_go.Common.{◌≡◌, refl, pos, String, List, [], ◌∷◌, some, true}
use my_go.Health.{
  HealthStatus, status_up, status_down, status_degraded, HealthCheckResult, ServiceConfig,
  HealthProvider, strategy_critical,
}
use my_go.Health.Checking.{
  aggregate_status, is_critical, has_status, new_service, check, get_health_response,
  http_status_code, readiness_status_code,
}
use my_go.Health.Starting.{register_all, get_health_response-new_service}
use my_go.Health.Verdicts.{aggregate_status-verdict_of}

abbrev result : String → HealthStatus → HealthCheckResult
result name status = record {
  name = name;
  status = status;
  details = [];
  checked_at = 0;
  error = "";
}

-- The database is critical and up; the cache is not critical and is down.
abbrev some_results : List HealthCheckResult
some_results = result "database" status_up ∷ result "cache" status_down ∷ []

abbrev database_critical : ServiceConfig
database_critical = record {
  async_mode = true;
  check_interval = pos 30;
  default_timeout = pos 5;
  aggregation_strategy = strategy_critical;
  critical_providers = "database" ∷ [];
}

aggregate_status-verdict_of_example :
    aggregate_status database_critical some_results ≡ status_degraded
unfolding is_critical has_status
aggregate_status-verdict_of_example = aggregate_status-verdict_of database_critical some_results

abbrev healthy : HealthProvider
healthy = record { name = "database"; check = λ now timeout. some (result "database" status_up) }

get_health_response-new_service_example :
    (http_status_code (
        get_health_response 2
          (register_all (healthy ∷ []) (check 1 (new_service database_critical)).0))
      ≡ 503)
    × (readiness_status_code (
          get_health_response 2
            (register_all (healthy ∷ []) (check 1 (new_service database_critical)).0))
        ≡ 503)
unfolding aggregate_status new_service
get_health_response-new_service_example =
    get_health_response-new_service database_critical 1 2 [] (healthy ∷ []) refl
