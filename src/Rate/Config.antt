-- ===== src/Rate/Config.antt =====
-- The configuration file's view of the limiter, internal/pkg/rate/config.go.
use my_go.Common.{
  ℤ, pos, ◌*ℤ◌, Duration, String, Option, none, some, Bool, ◌||◌, ◌&&◌, leb_ℤ, ltb_ℤ, if◌then◌else◌,
  int64, str_eq,
}
use my_go.Rate.Types.{Config}

pub data ConfigError : Type 0 where
  rate_not_positive interval_not_positive invalid_strategy : ConfigError
  invalid_storage_type redis_address_required : ConfigError

pub record RedisConfig : Type 0 where
  pub addr : String
  pub password : String
  pub db : ℤ
  pub pool_size : ℤ

pub record StorageConfig : Type 0 where
  pub storage_type : String
  pub redis : RedisConfig
  pub key_prefix : String

pub record LimiterConfig : Type 0 where
  pub strategy : String
  pub rate : ℤ
  pub burst : ℤ
  pub interval : Duration
  pub ttl : Duration
  pub fail_open : Bool
  pub storage : StorageConfig

abbrev pub is_strategy : String → Bool
is_strategy s =
    str_eq s "token_bucket"
    || str_eq s "leaky_bucket"
    || str_eq s "fixed_window"
    || str_eq s "sliding_window"

-- The checks of `StorageConfig.Validate` after the type has its default.
unfoldable pub validate_typed : StorageConfig → StorageConfig × Option ConfigError
validate_typed c =
    if str_eq c.storage_type "redis" && str_eq c.redis.addr ""
    then (c, some redis_address_required)
    else (if str_eq c.key_prefix "" then record c { key_prefix = "ratelimit" } else c, none)

-- A method that corrects its receiver returns the corrected record, also beside an error.
unfoldable pub validate_storage : StorageConfig → StorageConfig × Option ConfigError
unfolding validate_typed
validate_storage c =
    if str_eq c.storage_type "memory" || str_eq c.storage_type "redis"
    then validate_typed c
    else if str_eq c.storage_type ""
    then validate_typed (record c { storage_type = "memory" })
    else (c, some invalid_storage_type)

unfoldable pub with_burst : LimiterConfig → LimiterConfig
with_burst c = if ltb_ℤ c.burst c.rate then record c { burst = c.rate } else c

unfoldable pub with_ttl : LimiterConfig → LimiterConfig
with_ttl c = if leb_ℤ c.ttl (pos 0) then record c { ttl = int64 (c.interval *ℤ pos 2) } else c

-- The checks that follow the default of the ttl.
unfoldable pub validate_rest : LimiterConfig → LimiterConfig × Option ConfigError
validate_rest c =
    let (st, e) = validate_storage c.storage in
    if is_strategy c.strategy then (record c { storage = st }, e) else (c, some invalid_strategy)

unfoldable pub validate_limiter : LimiterConfig → LimiterConfig × Option ConfigError
unfolding with_burst with_ttl validate_rest
validate_limiter c =
    if leb_ℤ c.rate (pos 0)
    then (c, some rate_not_positive)
    else if leb_ℤ c.interval (pos 0)
    then (with_burst c, some interval_not_positive)
    else validate_rest (with_ttl (with_burst c))

unfoldable pub to_config : LimiterConfig → Config
to_config c = record {
  strategy = c.strategy;
  rate = c.rate;
  burst = c.burst;
  interval = c.interval;
  ttl = c.ttl;
  fail_open = c.fail_open;
}
