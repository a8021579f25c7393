-- ===== src/Health/Databases.antt =====
-- The providers for databases and Redis, internal/pkg/health/provider_postgres.go and
-- provider_redis.go. What the driver and the client answer is an argument, with how long it took.
use my_go.Common.{
  ℤ, pos, Time, Duration, second, String, Option, none, some, Bool, true, ◌&&◌, leb_ℤ, ltb_ℤ,
  if◌then◌else◌, Fallible, ok, err, str_eq,
}
use my_go.Health.{status_up, status_down, status_degraded, HealthCheckResult, text, number, flag}
use my_go.Health.Providers.{
  milliseconds, name_or, nonzero_or, begun, with_detail, ended, ended_with, down_because,
  by_latency,
}

pub record DbStats : Type 0 where
  pub max_open_connections : ℤ
  pub open_connections : ℤ
  pub in_use : ℤ
  pub idle : ℤ
  pub wait_count : ℤ
  pub wait_duration : Duration

abbrev with_latency : Duration → HealthCheckResult → HealthCheckResult
with_latency latency r = with_detail "latency_ms" (number (milliseconds latency)) r

abbrev with_connections : DbStats → HealthCheckResult → HealthCheckResult
with_connections s r = with_detail "idle" (number s.idle) (
    with_detail "in_use" (number s.in_use)
      (with_detail "open_connections" (number s.open_connections) r))

-- `NewPostgresProvider`: only the name can be missing.
abbrev pub postgres_name : String → String
postgres_name name = name_or "postgres" name

abbrev is_exhausted : DbStats → Bool
is_exhausted s =
    ltb_ℤ (pos 0) s.max_open_connections && leb_ℤ s.max_open_connections s.open_connections

abbrev by_pool : Duration → DbStats → HealthCheckResult → HealthCheckResult
by_pool latency s r =
    if ltb_ℤ (pos second) latency
    then ended status_degraded (with_detail "message" (text "high latency detected") r)
    else if is_exhausted s
    then ended status_degraded (with_detail "message" (text "connection pool exhausted") r)
    else ended status_up r

-- `PostgresProvider.Check`, at the outcome of the ping and the statistics after it.
unfoldable pub check_postgres :
    String → Time → Option String × Duration → DbStats → HealthCheckResult
check_postgres name now (some e, latency) stats =
    down_because "failed to ping database: " e (with_latency latency (begun name now))
check_postgres name now (none, latency) stats = by_pool latency stats (
    with_detail "wait_duration_ms" (number (milliseconds stats.wait_duration)) (
      with_detail "wait_count" (number stats.wait_count)
        (with_connections stats (with_latency latency (begun name now)))))

pub record DatabaseProvider : Type 0 where
  pub name : String
  pub query : String
  pub degraded_ms : ℤ
  pub timeout_ms : ℤ

unfoldable pub new_database_provider : DatabaseProvider → DatabaseProvider
new_database_provider c = record {
  name = name_or "database" c.name;
  query = name_or "SELECT 1" c.query;
  degraded_ms = nonzero_or 1000 c.degraded_ms;
  timeout_ms = nonzero_or 5000 c.timeout_ms;
}

-- The error of the query; `no_rows` is `sql.ErrNoRows`.
pub data QueryError : Type 0 where
  no_rows : QueryError
  query_error : String → QueryError

abbrev after_query : DatabaseProvider → Duration → DbStats → HealthCheckResult → HealthCheckResult
after_query p latency stats r =
    by_latency "high latency" p.degraded_ms latency (ended status_up) (with_connections stats r)

-- From the error on; `timed_out` says that one of the two contexts is past its deadline.
abbrev by_error :
    DatabaseProvider
    → Option QueryError
    → Bool
    → Duration
    → DbStats
    → HealthCheckResult
    → HealthCheckResult
by_error p none timed_out latency stats r = after_query p latency stats r
by_error p (some no_rows) timed_out latency stats r =
    if timed_out
    then ended_with status_down "query timeout" (with_detail "error" (text "timeout") r)
    else after_query p latency stats r
by_error p (some (query_error e)) timed_out latency stats r =
    if timed_out
    then ended_with status_down "query timeout" (with_detail "error" (text "timeout") r)
    else down_because "query failed: " e r

-- `DatabaseProvider.Check`, at the outcome of the query.
unfoldable pub check_database :
    DatabaseProvider → Time → Option QueryError → Bool → Duration → DbStats → HealthCheckResult
check_database p now e timed_out latency stats =
    by_error p e timed_out latency stats
      (with_detail "query" (text p.query) (with_latency latency (begun p.name now)))

pub record RedisProvider : Type 0 where
  pub name : String
  pub degraded_ms : ℤ

unfoldable pub new_redis_provider : RedisProvider → RedisProvider
new_redis_provider c = record {
  name = name_or "redis" c.name;
  degraded_ms = nonzero_or 100 c.degraded_ms;
}

unfoldable pub new_redis_cluster_provider : RedisProvider → RedisProvider
new_redis_cluster_provider c = record {
  name = name_or "redis-cluster" c.name;
  degraded_ms = nonzero_or 100 c.degraded_ms;
}

pub record PoolStats : Type 0 where
  pub hits : ℤ
  pub misses : ℤ
  pub timeouts : ℤ
  pub total_conns : ℤ
  pub idle_conns : ℤ
  pub stale_conns : ℤ

abbrev with_pool : PoolStats → HealthCheckResult → HealthCheckResult
with_pool s r = with_detail "idle_conns" (number s.idle_conns) (
    with_detail "total_conns" (number s.total_conns) (
      with_detail "pool_timeouts" (number s.timeouts)
        (with_detail "pool_misses" (number s.misses) (with_detail "pool_hits" (number s.hits) r))))

-- A client that is a `*redis.Client` has the statistics of its pool.
abbrev with_client_pool : Option PoolStats → HealthCheckResult → HealthCheckResult
with_client_pool none r = r
with_client_pool (some s) r = with_detail "stale_conns" (number s.stale_conns) (with_pool s r)

abbrev with_info : Fallible String String → HealthCheckResult → HealthCheckResult
with_info (err e) r = r
with_info (ok info) r =
    let r1 = with_detail "server_info_available" (flag true) r in
    if str_eq info "" then r1 else with_detail "connected" (flag true) r1

-- `RedisProvider.Check`, at the outcome of PING and INFO.
unfoldable pub check_redis :
    RedisProvider
    → Time
    → Fallible String String × Duration
    → Option PoolStats
    → Fallible String String
    → HealthCheckResult
check_redis p now (err e, latency) stats info =
    down_because "failed to ping redis: " e (with_latency latency (begun p.name now))
check_redis p now (ok pong, latency) stats info =
    by_latency "high latency detected" p.degraded_ms latency
      (λ r. ended status_up (with_info info r))
      (with_client_pool stats
        (with_detail "response" (text pong) (with_latency latency (begun p.name now))))

abbrev with_cluster_info : Fallible String String → HealthCheckResult → HealthCheckResult
with_cluster_info (err e) r = r
with_cluster_info (ok info) r = with_detail "cluster_info_available" (flag true) r

-- What CLUSTER NODES gives is a text, and the count is its length in bytes.
abbrev with_nodes : Fallible String ℤ → HealthCheckResult → HealthCheckResult
with_nodes (err e) r = r
with_nodes (ok n) r = with_detail "cluster_nodes_count" (number n) r

-- The last test is of the information's text and of the error of CLUSTER NODES.
abbrev with_state :
    Fallible String String → Fallible String ℤ → HealthCheckResult → HealthCheckResult
with_state (ok info) (ok n) r =
    if str_eq info "" then r else with_detail "cluster_state" (text "available") r
with_state _ _ r = r

-- `RedisClusterProvider.Check`, at the outcome of the pings of all shards and of the two commands; a
-- command that fails gives an empty text.
unfoldable pub check_redis_cluster :
    RedisProvider
    → Time
    → Option String × Duration
    → Fallible String String
    → Fallible String ℤ
    → PoolStats
    → HealthCheckResult
check_redis_cluster p now (some e, latency) info nodes stats =
    down_because "failed to ping redis cluster: " e (with_latency latency (begun p.name now))
check_redis_cluster p now (none, latency) info nodes stats =
    by_latency "high latency detected" p.degraded_ms latency
      (λ r. ended status_up (with_state info nodes r))
      (with_pool stats
        (with_nodes nodes (with_cluster_info info (with_latency latency (begun p.name now)))))
