-- ===== src/Rate/Types.antt =====
-- The data of the rate limiter (internal/pkg/rate/limiter.go) and its storage interface.
use my_go.Common.{
  ℕ, ℤ, pos, negsuc, ◌==◌, Time, Duration, String, List, Option, none, some, Bool, false, leb_ℤ,
  ltb_ℤ, ◌≤ℤ◌, ◌<ℤ◌, ◌≡◌, arith, if◌then◌else◌, Fallible,
}

-- Go's float64 and the functions of package math that the buckets call. Nothing is assumed of them
-- here; a theorem that needs a law takes it as a hypothesis.
pub record FloatOps : Type 1 where
  pub Float : Type 0
  pub zero : Float
  pub of_int : ℤ → Float
  pub seconds : Duration → Float
  pub add : Float → Float → Float
  pub sub : Float → Float → Float
  pub mul : Float → Float → Float
  pub div : Float → Float → Float
  pub min : Float → Float → Float
  pub max : Float → Float → Float
  pub le : Float → Float → Bool
  pub floor_int : Float → ℤ
  pub to_duration : Float → Duration

-- `storage_unavailable` is `ErrStorageUnavailable` itself, and `wraps_unavailable` is an error that
-- wraps it, as those of the Redis storage do.
pub data Error : Type 0 where
  rate_limit_exceeded invalid_config storage_unavailable wraps_unavailable : Error
  other_error : ℕ → Error

pub record Config : Type 0 where
  pub strategy : String
  pub rate : ℤ
  pub burst : ℤ
  pub interval : Duration
  pub ttl : Duration
  pub fail_open : Bool

pub record Result : Type 0 where
  pub allowed : Bool
  pub limit : ℤ
  pub remaining : ℤ
  pub retry_after : Duration
  pub reset_at : Time

pub record State (F : Type 0) : Type 0 where
  pub tokens : F
  pub last_update : Time
  pub counter : ℤ
  pub window_start : Time
  pub timestamps : List Time

-- A backend with states in `S`. The time argument of a call is what the clock shows during it.
pub record Storage (F S : Type 0) : Type 0 where
  pub get : Time → String → S → Option (State F) × Option Error
  pub set : Time → String → State F → Duration → S → S × Option Error
  pub increment : Time → String → ℤ → Duration → S → S × Fallible Error ℤ
  pub delete : String → S → S × Option Error

-- `err != nil && err != ErrStorageUnavailable`: the errors of `Get` that end a call. The comparison
-- is of the errors themselves, so a wrapped one ends it.
abbrev pub fatal : Option Error → Option Error
fatal none = none
fatal (some storage_unavailable) = none
fatal (some rate_limit_exceeded) = some rate_limit_exceeded
fatal (some wraps_unavailable) = some wraps_unavailable
fatal (some invalid_config) = some invalid_config
fatal (some (other_error n)) = some (other_error n)

-- `if remaining < 0 { remaining = 0 }`
abbrev pub at_least_zero : ℤ → ℤ
at_least_zero z = if ltb_ℤ z (pos 0) then pos 0 else z

-- `if n == 0`, on an `int`.
abbrev pub is_zero : ℤ → Bool
is_zero (pos n) = n == 0
is_zero (negsuc n) = false

-- `Config.Validate`; `none` is nil.
unfoldable pub validate : Config → Option Error
validate c =
    if leb_ℤ c.rate (pos 0)
    then some invalid_config
    else if ltb_ℤ c.burst c.rate
    then some invalid_config
    else if leb_ℤ c.interval (pos 0)
    then some invalid_config
    else none

-- What a valid configuration is.
pub record IsValid (c : Config) : Type 0 where
  pub rate_positive : pos 0 <ℤ c.rate
  pub burst_fits : c.rate ≤ℤ c.burst
  pub interval_positive : pos 0 <ℤ c.interval

pub validate-IsValid : (c : Config) → validate c ≡ none → IsValid c
unfolding validate
validate-IsValid c h = ground arith
