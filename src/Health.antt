-- ===== src/Health.antt =====
-- Health checks, internal/pkg/health: the data of types.go and the service's state of service.go.
pub mod Checking
pub mod Loops
pub mod Verdicts
pub mod Starting
pub mod Providers
pub mod Databases
mod Tests
use my_go.Common.{ℤ, Time, Duration, String, List, StringMap, Option, Bool}

-- `HealthStatus` is a string; a provider may return any.
pub data HealthStatus : Type 0 where
  status_up status_down status_degraded : HealthStatus
  other_status : String → HealthStatus

-- A value among the details; `percent_of a b` is the float64 of a / b * 100.
pub data Detail : Type 0 where
  text : String → Detail
  number : ℤ → Detail
  flag : Bool → Detail
  percent_of : ℤ → ℤ → Detail

pub record HealthCheckResult : Type 0 where
  pub name : String
  pub status : HealthStatus
  pub details : StringMap Detail
  pub checked_at : Time
  pub error : String

-- `AggregationStrategy` is a string too.
pub data AggregationStrategy : Type 0 where
  strategy_empty strategy_all strategy_any strategy_critical : AggregationStrategy
  other_strategy : String → AggregationStrategy

pub record ServiceConfig : Type 0 where
  pub async_mode : Bool
  pub check_interval : Duration
  pub default_timeout : Duration
  pub aggregation_strategy : AggregationStrategy
  pub critical_providers : List String

-- What a provider answers at a time within a timeout, where it does.
pub record HealthProvider : Type 0 where
  pub name : String
  pub check : Time → Duration → Option HealthCheckResult

pub record Service : Type 0 where
  pub config : ServiceConfig
  pub providers : List HealthProvider
  pub cached_results : List HealthCheckResult
  pub cached_status : HealthStatus
  pub last_check : Time

pub record HealthResponse : Type 0 where
  pub status : HealthStatus
  pub timestamp : Time
  pub checks : List HealthCheckResult
  pub total_checks : ℤ
  pub strategy : AggregationStrategy
