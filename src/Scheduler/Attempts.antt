-- ===== src/Scheduler/Attempts.antt =====
-- What the loop over the attempts comes to.
use my_go.Common.{
  ℕ, zero, suc, ◌+◌, ◌<◌, ◌≤◌, ◌≡◌, ◌≢◌, sym, inl, inr, refl, pos, +ℤ_parts, ◌+ℤ◌, ◌⊎◌, IsInt64,
  int64, int64_of_IsInt64, max_int64, ◌<ℤ◌, ap, ◌∙◌, pos_part, Option, none, some, String,
  Option-cases, arith,
}
use my_go.Scheduler.{Job, RetryPolicy}
use my_go.Scheduler.Retry.{Floats}
use my_go.Scheduler.Executor.{
  Outside, succeeded, all_failed, nil_dereference, execute_with_timeout, max_attempts, pause,
  give_up, attempt_from, execute,
}

module _ {F H W : Type 0} (floats : Floats F) (outside : Outside F H W) (job : Job F H) where
  abbrev paused_world : ℕ → W → W
  paused_world n w = (pause floats outside job n w).0

  -- What attempt `n + k` returns, and the world after it, if attempt `n` is to come in world `w`.
  abbrev pub attempted : ℕ → W → ℕ → W × Option String
  attempted n w zero = execute_with_timeout floats outside job (paused_world n w)
  attempted n w (suc k) =
      attempted (n + 1) (execute_with_timeout floats outside job (paused_world n w)).0 k

  attempt_from-last :
      (left n : ℕ) (last : Option String) (w : W)
      → (pause floats outside job n w).1 ≡ none
      → (attempted n w 0).1 ≡ none
      → attempt_from floats outside job (suc left) n last w ≡ ((attempted n w 0).0, succeeded)
  unfolding attempt_from
  attempt_from-last left n last w calm good = rw (attempt_from, calm) (rw good)

  attempt_from-next :
      (left n : ℕ) (last : Option String) (w : W) (m : String)
      → (pause floats outside job n w).1 ≡ none
      → (attempted n w 0).1 ≡ some m
      → attempt_from floats outside job (suc left) n last w
        ≡ attempt_from floats outside job left (n + 1) (some m) (attempted n w 0).0
  unfolding attempt_from
  attempt_from-next left n last w m calm e = rw (attempt_from, calm) (rw e)

  attempt_from-succeeded :
      (left n k : ℕ) (last : Option String) (w : W)
      → ((m : ℕ) (v : W) → (pause floats outside job m v).1 ≡ none)
      → k < left
      → ((j : ℕ) → j < k → (attempted n w j).1 ≢ none)
      → (attempted n w k).1 ≡ none
      → attempt_from floats outside job left n last w ≡ ((attempted n w k).0, succeeded)
  attempt_from-succeeded zero n k last w calm h fails good = absurd (omega arith)
  attempt_from-succeeded (suc left) n zero last w calm h fails good =
      attempt_from-last left n last w (calm n w) good
  attempt_from-succeeded (suc left) n (suc k) last w calm h fails good =
      elim (Option-cases (attempted n w 0).1) [
        | inl e ↦ absurd (fails 0 (omega arith) e)
        | inr (m, e) ↦
            attempt_from-next left n last w m (calm n w) e
            ∙ attempt_from-succeeded left (n + 1) k (some m) (attempted n w 0).0 calm (omega arith)
                (λ j below. fails (suc j) (omega arith)) good
      ]

  attempt_from-failed :
      (left n : ℕ) (last : Option String) (w : W)
      → ((m : ℕ) (v : W) → (pause floats outside job m v).1 ≡ none)
      → ((j : ℕ) → j ≤ left → (attempted n w j).1 ≢ none)
      → attempt_from floats outside job (suc left) n last w
        ≡ ((attempted n w left).0, give_up floats outside job (attempted n w left).1)
  unfolding attempt_from
  attempt_from-failed zero n last w calm fails = elim (Option-cases (attempted n w 0).1) [
    | inl e ↦ absurd (fails 0 (omega arith) e)
    | inr (m, e) ↦
        attempt_from-next 0 n last w m (calm n w) e
        ∙ ap (λ o. ((attempted n w 0).0, give_up floats outside job o)) (sym e)
  ]
  attempt_from-failed (suc left) n last w calm fails = elim (Option-cases (attempted n w 0).1) [
    | inl e ↦ absurd (fails 0 (omega arith) e)
    | inr (m, e) ↦
        attempt_from-next (suc left) n last w m (calm n w) e
        ∙ attempt_from-failed left (n + 1) (some m) (attempted n w 0).0 calm
            (λ j below. fails (suc j) (omega arith))
  ]

  -- If no wait is cut short, `Execute` returns nil where attempt `k` is the first that succeeds and
  -- `k`, counted from 0, is below the number of attempts of the job; the world is then as that attempt
  -- left it. That number is 1 where the job has no policy, and else MaxRetries + 1, wrapped around.
  pub execute-succeeded :
      (k : ℕ) (w : W)
      → ((m : ℕ) (v : W) → (pause floats outside job m v).1 ≡ none)
      → k < pos_part (max_attempts floats outside job)
      → ((j : ℕ) → j < k → (attempted 0 w j).1 ≢ none)
      → (attempted 0 w k).1 ≡ none
      → execute floats outside job w ≡ ((attempted 0 w k).0, succeeded)
  unfolding execute
  execute-succeeded k w calm h fails good = attempt_from-succeeded _ 0 k none w calm h fails good

  -- If no wait is cut short and each attempt that the job allows fails, of which there is one at
  -- least, `Execute` makes them all and returns an error with their number and the last one's error.
  pub execute-all_failed :
      (retries : ℕ) (w : W)
      → ((m : ℕ) (v : W) → (pause floats outside job m v).1 ≡ none)
      → max_attempts floats outside job ≡ pos (suc retries)
      → ((j : ℕ) → j ≤ retries → (attempted 0 w j).1 ≢ none)
      → (e : String) × ((attempted 0 w retries).1 ≡ some e)
        × (execute floats outside job w
            ≡ ((attempted 0 w retries).0, all_failed (pos (suc retries)) e))
  unfolding execute
  execute-all_failed retries w calm count fails = elim (Option-cases (attempted 0 w retries).1) [
    | inl e ↦ absurd (fails retries (omega arith) e)
    | inr (m, e) ↦ (
      m,
      e,
      rw count (
          attempt_from-failed retries 0 none w calm fails
          ∙ ap (λ o. ((attempted 0 w retries).0, give_up floats outside job o)) e
          ∙ ap (λ c. ((attempted 0 w retries).0, all_failed c m)) count),
    )
  ]

  none_left :
      (policy : RetryPolicy F)
      → IsInt64 policy.max_retries
      → job.retry_policy ≡ some policy
      → policy.max_retries <ℤ pos 0
      → pos_part (max_attempts floats outside job) ≡ 0
  none_left policy in_range e h = rw e (
      ground (
        arith,
        int64_of_IsInt64 (policy.max_retries +ℤ pos 1),
        +ℤ_parts policy.max_retries (pos 1),
      ))

  none_left_wrapped :
      (policy : RetryPolicy F)
      → job.retry_policy ≡ some policy
      → policy.max_retries ≡ pos max_int64
      → pos_part (max_attempts floats outside job) ≡ 0
  unfolding ◌+ℤ◌ int64
  none_left_wrapped policy e h = rw e (rw h refl)

  -- A job with a negative MaxRetries is never run: `Execute` panics on a nil error. With the largest
  -- MaxRetries the number of attempts wraps around, and it is the same.
  execute-nil_dereference :
      (policy : RetryPolicy F) (w : W)
      → IsInt64 policy.max_retries
      → job.retry_policy ≡ some policy
      → (policy.max_retries <ℤ pos 0) ⊎ (policy.max_retries ≡ pos max_int64)
      → execute floats outside job w ≡ (w, nil_dereference)
  unfolding execute attempt_from
  execute-nil_dereference policy w in_range e (inl h) = rw (execute, none_left policy in_range e h)
  execute-nil_dereference policy w in_range e (inr h) = rw (execute, none_left_wrapped policy e h)
