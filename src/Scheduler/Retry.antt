-- ===== src/Scheduler/Retry.antt =====
-- Delays between attempts: `NextRetryDelay` of job.go.
use my_go.Common.{
  ◌⊎◌, ℕ, zero, suc, ◌+◌, ◌≡◌, pos, ◌*ℤ◌, ◌≤ℤ◌, ltb_ℤ, leb_ℤ, int64, Duration, if◌then◌else◌, arith,
  false, true,
}
use my_go.Scheduler.{RetryPolicy, Strategy, exponential, linear, fixed, other_strategy}

-- What the code does with float64: `1.0`, a product, and `time.Duration(float64(d) * m)`.
pub record Floats (F : Type 0) : Type 0 where
  pub one : F
  pub mul : F → F → F
  pub scale : Duration → F → Duration

module _ {F : Type 0} (floats : Floats F) where
  unfoldable pub power : F → ℕ → F
  power m zero = floats.one
  power m (suc i) = floats.mul (power m i) m

  unfoldable pub raw_delay : RetryPolicy F → Strategy → ℕ → Duration
  raw_delay r exponential attempt = floats.scale r.initial_interval (power r.multiplier attempt)
  raw_delay r linear attempt = int64 (r.initial_interval *ℤ pos (1 + attempt))
  raw_delay r fixed attempt = r.initial_interval
  raw_delay r other_strategy attempt = r.initial_interval

  abbrev pub at_most : Duration → Duration → Duration
  at_most limit d = if ltb_ℤ limit d then limit else d

  unfoldable pub next_retry_delay : RetryPolicy F → ℕ → Duration
  next_retry_delay r attempt =
      if leb_ℤ r.max_retries (pos attempt)
      then pos 0
      else at_most r.max_interval (raw_delay r r.strategy attempt)

  -- No delay between attempts that are left exceeds `MaxInterval`, and past the last retry it is 0.
  pub next_retry_delay-bounded :
      (r : RetryPolicy F) (attempt : ℕ)
      → (leb_ℤ r.max_retries (pos attempt) ≡ true) × (next_retry_delay r attempt ≡ pos 0)
        ⊎ (leb_ℤ r.max_retries (pos attempt) ≡ false)
          × (next_retry_delay r attempt ≤ℤ r.max_interval)
  unfolding next_retry_delay
  next_retry_delay-bounded r attempt = ground arith
