-- ===== src/Retry.antt =====
-- Retries with a back-off, internal/pkg/retry/retry.go.
pub mod Ending
mod Tests
use my_go.Common.{
  ℕ, zero, suc, ℤ, pos, ◌+ℤ◌, ◌-ℤ◌, int64, leb_ℤ, ltb_ℤ, Duration, List, [], ◌∷◌, Option, none,
  some, Bool, true, false, not, ◌||◌, if◌then◌else◌, Fallible, ok, err,
}

pub record Policy : Type 0 where
  pub base_delay : Duration
  pub max_delay : Duration
  pub jitter : Bool
  pub max_attempts : ℤ

unfoldable pub exponential_backoff : Duration → Duration → Bool → ℤ → Policy
exponential_backoff base max jitter attempts = record {
  base_delay = base;
  max_delay = max;
  jitter = jitter;
  max_attempts = attempts;
}

-- How `Do` ends. `gave_up none` has no error; `unfinished` is the end of the fuel.
pub data Outcome (A E : Type 0) : Type 0 where
  returned : A → Outcome A E
  gave_up : Option E → Outcome A E
  cancelled unfinished : Outcome A E

-- The results of the calls of the function, in order, are kept in `log`.
pub record Run (W A E : Type 0) : Type 0 where
  pub world : W
  pub log : List (Fallible E A)
  pub outcome : Outcome A E

abbrev pub stop : {W A E : Type 0} → W → Outcome A E → Run W A E
stop w o = record { world = w; log = []; outcome = o }

abbrev pub add_result : {W A E : Type 0} → Fallible E A → Run W A E → Run W A E
add_result r run = record run { log = r ∷ run.log }

-- `grown` is the product of the delay and a power of two, a float64, and `shaken` that with a random
-- factor. `is_cancelled` reads the context; `wait` lets time pass, unless the context ends.
module _ {W A E : Type 0} (policy : Policy) (grown : Duration → ℤ → Duration)
    (shaken : W → Duration → Duration) (fn : W → W × Fallible E A) (retryable : Option (E → Bool))
    (is_cancelled : W → Bool) (wait : Duration → W → W) where
  open policy use {base_delay, max_delay, jitter, max_attempts}

  abbrev pub at_most_max : Duration → Duration
  at_most_max d = if ltb_ℤ max_delay d then max_delay else d

  abbrev pub at_least_one : ℤ → ℤ
  at_least_one attempt = if leb_ℤ attempt (pos 0) then pos 1 else attempt

  -- The power of two is `attempt - 1`.
  unfoldable pub next_delay : ℤ → W → Duration
  next_delay attempt w =
      let delay = at_most_max (grown base_delay (at_least_one attempt -ℤ pos 1)) in
      if jitter then shaken w delay else delay

  abbrev pub is_retryable : E → Bool
  is_retryable e = elim retryable [ none ↦ true | some f ↦ f e ]

  abbrev pub is_zero : ℤ → Bool
  is_zero (pos zero) = true
  is_zero _ = false

  abbrev pub allowed : ℤ → Bool
  allowed attempt = is_zero max_attempts || leb_ℤ attempt max_attempts

  -- After an error: `again` is the rest of the loop.
  abbrev pub on_error : ℤ → E → W → (W → Run W A E) → Run W A E
  on_error attempt e w again =
      let waited = wait (next_delay attempt w) w in
      if is_retryable e
      then if is_cancelled waited then stop waited cancelled else again waited
      else stop w (gave_up (some e))

  abbrev pub on_called : ℤ → W × Fallible E A → (E → W → Run W A E) → Run W A E
  on_called attempt (w, ok a) again = add_result (ok a) (stop w (returned a))
  on_called attempt (w, err e) again = add_result (err e) (on_error attempt e w (again e))

  abbrev pub round : ℤ → Option E → W → (E → W → Run W A E) → Run W A E
  round attempt last w again =
      if allowed attempt
      then if is_cancelled w then stop w cancelled else on_called attempt (fn w) again
      else stop w (gave_up last)

  -- The loop, from an attempt on, with the last error. The attempts are counted in an `int`.
  unfoldable pub do_from : ℕ → ℤ → Option E → W → Run W A E
  do_from zero attempt last w = stop w unfinished
  do_from (suc fuel) attempt last w =
      round attempt last w (λ e w'. do_from fuel (int64 (attempt +ℤ pos 1)) (some e) w')

  unfoldable pub do_with : ℕ → W → Run W A E
  do_with fuel w = do_from fuel (pos 1) none w
