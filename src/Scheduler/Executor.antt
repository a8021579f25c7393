-- ===== src/Scheduler/Executor.antt =====
-- The executor, executor.go. One attempt is a run of the handler beside a timer; which of them ends
-- first, and what the handler does to the world `W`, is outside, and so is a wait.
use my_go.Common.{
  ℕ, zero, suc, ◌+◌, ℤ, pos, ◌+ℤ◌, int64, ltb_ℤ, pos_part, Duration, String, Option, none, some,
  if◌then◌else◌,
}
use my_go.Scheduler.{Job}
use my_go.Scheduler.Retry.{Floats, next_retry_delay}

-- How an attempt ends: the handler returns nil or an error, or panics; or the timer or the caller's
-- context ends it.
pub data Ending : Type 0 where
  returned_nil timed_out : Ending
  returned_error panicked context_done : String → Ending

-- `returned_error` has the number of attempts and the last error. `nil_dereference` is the panic of
-- `lastErr.Error()` where no attempt was made.
pub data Outcome : Type 0 where
  succeeded nil_dereference : Outcome
  cancelled : String → Outcome
  all_failed : ℤ → String → Outcome

-- The outside: an attempt of a job, and a wait, which the context may cut short with its error.
pub record Outside (F H W : Type 0) : Type 0 where
  pub attempt : Job F H → W → W × Ending
  pub wait : Duration → W → W × Option String

-- `executeWithTimeout`, the error of one ending; texts that name durations are left out of them.
abbrev pub error_of : Ending → Option String
error_of returned_nil = none
error_of timed_out = some "job execution timeout"
error_of (returned_error e) = some e
error_of (panicked e) = some e
error_of (context_done e) = some e

module _ {F H W : Type 0} (floats : Floats F) (outside : Outside F H W) where
  open outside use {attempt, wait}

  unfoldable pub execute_with_timeout : Job F H → W → W × Option String
  execute_with_timeout job w = let (w', ending) = attempt job w in (w', error_of ending)

  -- An `int`, which wraps around.
  abbrev pub max_attempts : Job F H → ℤ
  max_attempts job = elim job.retry_policy [
    | none ↦ pos 1
    | some policy ↦ int64 (policy.max_retries +ℤ pos 1)
  ]

  -- The delay before attempt `n`, counted from 0; the first has none.
  unfoldable pub delay_before : Job F H → ℕ → Duration
  delay_before job zero = pos 0
  delay_before job (suc n) = elim job.retry_policy [
    | none ↦ pos 0
    | some policy ↦ next_retry_delay floats policy n
  ]

  unfoldable pub pause : Job F H → ℕ → W → W × Option String
  pause job n w =
      let d = delay_before job n in
      let waited = wait d w in if ltb_ℤ (pos 0) d then waited else (w, none)

  abbrev pub give_up : Job F H → Option String → Outcome
  give_up job none = nil_dereference
  give_up job (some e) = all_failed (max_attempts job) e

  abbrev pub unless_succeeded : Option String → W → W × Outcome → W × Outcome
  unless_succeeded none w later = (w, succeeded)
  unless_succeeded (some e) w later = later

  abbrev pub unless_cancelled : Option String → W → W × Outcome → W × Outcome
  unless_cancelled none w later = later
  unless_cancelled (some e) w later = (w, cancelled e)

  -- The loop from attempt `n` on, with the number of attempts left and `lastErr`.
  unfoldable pub attempt_from : Job F H → ℕ → ℕ → Option String → W → W × Outcome
  attempt_from job zero n last w = (w, give_up job last)
  attempt_from job (suc left) n last w =
      let (w1, stop) = pause job n w in
      let (w2, failed) = execute_with_timeout job w1 in
      let later = attempt_from job left (n + 1) failed w2 in
      unless_cancelled stop w1 (unless_succeeded failed w2 later)

  unfoldable pub execute : Job F H → W → W × Outcome
  execute job w = attempt_from job (pos_part (max_attempts job)) 0 none w
