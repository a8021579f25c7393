-- ===== src/Scheduler/Config.antt =====
-- The configuration and its `Validate`: config.go.
use my_go.Common.{
  ◌⊎◌, inl, inr, suc, Bool-cases, ℕ, ◌*◌, ◌/◌, ℤ, pos, pos_part, ◌≤ℤ◌, ◌<ℤ◌, leb_ℤ, Duration,
  String, if◌then◌else◌, Fallible, ok, err, second, str_eq, ◌||◌, ◌≡◌, eq_iff, arith,
}
use my_go.Scheduler.{Error, invalid_timeout}

pub record SchedulerConfig : Type 0 where
  pub tick_interval : Duration
  pub max_concurrent : ℤ
  pub lock_ttl : Duration
  pub lock_refresh_interval : Duration
  pub backend_type : String
  pub redis_addr : String
  pub redis_password : String
  pub redis_db : ℤ

abbrev pub default_scheduler_config : SchedulerConfig
default_scheduler_config = record {
  tick_interval = pos (5 * second);
  max_concurrent = pos 10;
  lock_ttl = pos (30 * second);
  lock_refresh_interval = pos (10 * second);
  backend_type = "memory";
  redis_addr = "localhost:6379";
  redis_password = "";
  redis_db = pos 0;
}

abbrev pub or_default : ℤ → ℤ → ℤ
or_default d z = if leb_ℤ z (pos 0) then d else z

-- A refresh interval that is not below the ttl becomes a third of it; the ttl is positive by then.
abbrev pub below_ttl : Duration → Duration → Duration
below_ttl ttl refresh = if leb_ℤ ttl refresh then pos (pos_part ttl / 3) else refresh

abbrev pub known_backend : String → String
known_backend b = if str_eq b "redis" || str_eq b "memory" then b else "memory"

-- The configuration with its defaults filled in.
abbrev pub validated : SchedulerConfig → SchedulerConfig
validated c =
    let ttl = or_default (pos (30 * second)) c.lock_ttl in
    record c {
      max_concurrent = or_default (pos 10) c.max_concurrent;
      lock_ttl = ttl;
      lock_refresh_interval =
          below_ttl ttl (or_default (pos (10 * second)) c.lock_refresh_interval);
      backend_type = known_backend c.backend_type;
    }

unfoldable pub validate : SchedulerConfig → Fallible Error SchedulerConfig
validate c = if leb_ℤ c.tick_interval (pos 0) then err invalid_timeout else ok (validated c)

abbrev IsKnown : String → Type 0
IsKnown b = (b ≡ "redis") ⊎ (b ≡ "memory")

-- What the scheduler relies on.
abbrev pub IsValid : SchedulerConfig → Type 0
IsValid c =
    (pos 0 <ℤ c.tick_interval)
    × (pos 0 <ℤ c.max_concurrent)
    × (pos 0 <ℤ c.lock_ttl)
    × (c.lock_refresh_interval <ℤ c.lock_ttl)
    × IsKnown c.backend_type

known_backend-IsKnown : (b : String) → IsKnown (known_backend b)
known_backend-IsKnown b = ground (arith, eq_iff b "redis", eq_iff b "memory")

or_default-positive : (d : ℕ) (z : ℤ) → pos 0 <ℤ or_default (pos (suc d)) z
or_default-positive d z = ground arith

below_ttl-below : (ttl refresh : Duration) → pos 0 <ℤ ttl → below_ttl ttl refresh <ℤ ttl
below_ttl-below ttl refresh h = ground arith

validated-IsValid : (c : SchedulerConfig) → pos 0 <ℤ c.tick_interval → IsValid (validated c)
validated-IsValid c h = (
  h,
  or_default-positive 9 c.max_concurrent,
  or_default-positive 29999999999 c.lock_ttl,
  below_ttl-below _ _ (or_default-positive 29999999999 c.lock_ttl),
  known_backend-IsKnown c.backend_type,
)

-- `Validate` fails exactly on a tick interval that is not positive. On any other configuration it
-- succeeds, and leaves one with a positive tick interval, concurrency and lock ttl, a refresh interval
-- below the ttl, and a backend type that is known.
pub validate-IsValid :
    (c : SchedulerConfig)
    → (c.tick_interval ≤ℤ pos 0) × (validate c ≡ err invalid_timeout)
      ⊎ (pos 0 <ℤ c.tick_interval) × ((c' : SchedulerConfig) × (validate c ≡ ok c') × IsValid c')
unfolding validate
validate-IsValid c = elim (Bool-cases (leb_ℤ c.tick_interval (pos 0))) [
  | inl e ↦ inl (ground arith, rw (validate, e))
  | inr e ↦ inr (ground arith, (validated c, rw (validate, e), validated-IsValid c (ground arith)))
]
