-- ===== src/Rate/Limiter/Building.antt =====
-- A checked configuration file makes a limiter.
use my_go.Common.{
  ℤ, pos, pos_part, ◌*ℤ◌, ◌<ℤ◌, ◌≤ℤ◌, ◌*◌, ◌≤◌, ◌≡◌, ◌⊎◌, inl, inr, refl, String, none, some, true,
  Option-cases, eq_iff, ok, int64, int64_of_IsInt64, max_int64, arith,
}
use my_go.Rate.Types.{Config, validate}
use my_go.Rate.Config.{
  with_ttl, with_burst, validate_rest, LimiterConfig, StorageConfig, validate_limiter,
  validate_storage, to_config, is_strategy,
}
use my_go.Rate.Limiter.{LimiterImpl, Executor, executor_of, new}

strategy_known : (s : String) → is_strategy s ≡ true → (x : Executor) × (executor_of s ≡ some x)
unfolding executor_of
strategy_known s h = elim (Option-cases (executor_of s)) [
  | inl unknown ↦ absurd (ground arith)
  | inr (x, e) ↦ (x, e)
]

double_positive : (d : ℤ) → pos 0 <ℤ d → pos_part d * 2 ≤ max_int64 → pos 0 <ℤ int64 (d *ℤ pos 2)
unfolding ◌*ℤ◌
double_positive d h k = let e = int64_of_IsInt64 (d *ℤ pos 2) (ground arith) in ground (arith, e)

-- A storage that passes has a known type.
known_storage :
    (c : StorageConfig)
    → (validate_storage c).1 ≡ none
    → let t = (validate_storage c).0.storage_type in (t ≡ "memory") ⊎ (t ≡ "redis")
unfolding validate_storage
known_storage c h =
    ground (
      arith,
      eq_iff c.storage_type "memory",
      eq_iff c.storage_type "redis",
      eq_iff c.storage_type "",
    )

-- What the last checks leave alone, and what they find.
rest_passes :
    (c c' : LimiterConfig)
    → validate_rest c ≡ (c', none)
    → (c'.rate ≡ c.rate)
      × (c'.burst ≡ c.burst)
      × (c'.interval ≡ c.interval)
      × (c'.ttl ≡ c.ttl)
      × (is_strategy c'.strategy ≡ true)
      × ((c'.storage.storage_type ≡ "memory") ⊎ (c'.storage.storage_type ≡ "redis"))
unfolding validate_rest
rest_passes c c' h = ground (arith, known_storage c.storage)

-- What the corrections before them make.
corrected_facts :
    (c : LimiterConfig)
    → pos 0 <ℤ c.interval
    → pos_part c.interval * 2 ≤ max_int64
    → let d = with_ttl (with_burst c) in
      (d.rate ≡ c.rate) × (c.rate ≤ℤ d.burst) × (d.interval ≡ c.interval) × (pos 0 <ℤ d.ttl)
unfolding with_ttl with_burst
corrected_facts c h k = ground (arith, double_positive c.interval h k)

first_passes :
    (c c' : LimiterConfig)
    → validate_limiter c ≡ (c', none)
    → (pos 0 <ℤ c.rate)
      × (pos 0 <ℤ c.interval)
      × (validate_rest (with_ttl (with_burst c)) ≡ (c', none))
unfolding validate_limiter
first_passes c c' h = ground arith

validate_of_facts :
    (c : Config) → pos 0 <ℤ c.rate → c.rate ≤ℤ c.burst → pos 0 <ℤ c.interval → validate c ≡ none
unfolding validate
validate_of_facts c h k l = ground arith

module _ (c c' : LimiterConfig) (passes : validate_limiter c ≡ (c', none))
    (in_range : pos_part c.interval * 2 ≤ max_int64) where
  checked_facts :
      (pos 0 <ℤ c'.rate) × (c'.rate ≤ℤ c'.burst) × (pos 0 <ℤ c'.interval) × (pos 0 <ℤ c'.ttl)
  checked_facts =
      let first = first_passes c c' passes in
      ground (
        arith,
        first,
        corrected_facts c first.1 in_range,
        rest_passes (with_ttl (with_burst c)) c' first.2,
      )

  checked_valid : validate (to_config c') ≡ none
  unfolding to_config
  checked_valid = validate_of_facts (to_config c') checked_facts.0 checked_facts.1 checked_facts.2

  checked_rest :
      (is_strategy c'.strategy ≡ true)
      × ((c'.storage.storage_type ≡ "memory") ⊎ (c'.storage.storage_type ≡ "redis"))
  checked_rest =
      let r = rest_passes (with_ttl (with_burst c)) c' (first_passes c c' passes).2 in (r.4, r.5)

  -- A configuration file that passes the check, after its corrections, makes a limiter: `New` accepts
  -- what `ToConfig` makes of it, with a known strategy. Its ttl is positive, if twice the interval is
  -- in the int64 range, and its storage is the memory or Redis.
  pub checked_config_builds :
      (l : LimiterImpl) × (new (to_config c') ≡ ok l)
      × (l.config ≡ to_config c')
      × (pos 0 <ℤ c'.ttl)
      × ((c'.storage.storage_type ≡ "memory") ⊎ (c'.storage.storage_type ≡ "redis"))
  unfolding new to_config
  checked_config_builds =
      let (x, e) = strategy_known c'.strategy checked_rest.0 in
      (
        record { config = to_config c'; executor = x },
        ground (arith, e, checked_valid),
        refl,
        checked_facts.3,
        checked_rest.1,
      )
