-- ===== src/Scheduler/Tests.antt =====
-- Witnesses: a job that fails twice and then succeeds, a lock that two instances want, and jobs with
-- an interval and with a single time.
use my_go.Common.{
  ℕ, zero, suc, ◌+◌, ◌<◌, ◌≤◌, ◌≡◌, ◌≢◌, refl, ℤ, pos, List, [], ◌∷◌, String, none, some, true,
  false, ok, err, lookup, eq_iff, arith, ◌+ℤ◌, int64, ◌≤ℤ◌, ◌<ℤ◌, ◌⊎◌,
}
use my_go.Scheduler.{
  Job, JobMetadata, RetryPolicy, fixed, interval_schedule, once_schedule, Schedule, job_pending,
  job_running, Error, RunError, lock_acquisition_failed, run_failed, job_not_found, invalid_timeout,
  validate,
}
use my_go.Scheduler.Retry.{Floats, next_retry_delay, raw_delay}
use my_go.Scheduler.Backend.{MemoryBackend, memory_backend, empty, is_due, acquire_lock, load_job}
use my_go.Scheduler.Locks.{
  LockCall, acquiring, refreshing, releasing, call, call_all, acquire_lock-excludes,
}
use my_go.Scheduler.Executor.{
  Outside, Ending, returned_nil, returned_error, succeeded, all_failed, execute, pause,
  delay_before, execute_with_timeout,
}
use my_go.Scheduler.Attempts.{attempted, execute-succeeded, execute-all_failed}
use my_go.Scheduler.Engine.{
  Scheduler, Setting, register, remove_job, get_job, pause_job, prepared,
  update_job_after_execution,
}
use my_go.Scheduler.Lifecycle.{pause_job-not_due, register-remove_job}
use my_go.Scheduler.Runs.{DueFrom, stored, update_job_after_execution-DueFrom, once-DueFrom}
use my_go.Scheduler.Config.{SchedulerConfig, default_scheduler_config, IsValid, validate-IsValid}

abbrev integers : Floats ℕ
integers = record { one = 1; mul = λ a b. a; scale = λ d m. d }

abbrev policy : ℤ → RetryPolicy ℕ
policy n = record {
  max_retries = n;
  initial_interval = pos 5;
  max_interval = pos 30;
  multiplier = 2;
  strategy = fixed;
}

abbrev idle : JobMetadata
idle = record {
  status = job_pending;
  next_run_at = 100;
  last_run_at = none;
  last_error = "";
  run_count = pos 0;
  fail_count = pos 0;
  created_at = 1;
  updated_at = 1;
  locked_by = "";
  locked_until = none;
}

abbrev report : Schedule → ℤ → Job ℕ ℕ
report schedule retries = record {
  name = "report";
  schedule = some schedule;
  retry_policy = some (policy retries);
  timeout = pos 1000;
  handler = some 0;
  metadata = idle;
}

-- The world counts attempts; the third one succeeds.
abbrev third_time : ℕ → Ending
third_time (suc (suc zero)) = returned_nil
third_time _ = returned_error "busy"

abbrev counting : Outside ℕ ℕ ℕ
counting = record { attempt = λ job w. (w + 1, third_time w); wait = λ d w. (w, none) }

abbrev failing : Outside ℕ ℕ ℕ
failing = record { attempt = λ job w. (w + 1, returned_error "busy"); wait = λ d w. (w, none) }

abbrev hourly : ℤ → Job ℕ ℕ
hourly = report (interval_schedule (pos 3600))

calm_counting : (m : ℕ) (v : ℕ) → (pause integers counting (hourly (pos 3)) m v).1 ≡ none
unfolding pause delay_before next_retry_delay
calm_counting zero v = refl
calm_counting (suc m) v = ground arith

two_fail : (j : ℕ) → j < 2 → (attempted integers counting (hourly (pos 3)) 0 0 j).1 ≢ none
unfolding pause delay_before next_retry_delay execute_with_timeout
two_fail zero h e = ground arith
two_fail (suc zero) h e = ground arith
two_fail (suc (suc j)) h e = omega arith

execute-succeeded_example : execute integers counting (hourly (pos 3)) 0 ≡ (3, succeeded)
unfolding ◌+ℤ◌ int64 pause delay_before next_retry_delay execute_with_timeout raw_delay
execute-succeeded_example =
    execute-succeeded integers counting (hourly (pos 3)) 2 0 calm_counting (omega arith) two_fail
      refl

calm_failing : (m : ℕ) (v : ℕ) → (pause integers failing (hourly (pos 1)) m v).1 ≡ none
unfolding pause delay_before next_retry_delay
calm_failing zero v = refl
calm_failing (suc m) v = ground arith

both_fail : (j : ℕ) → j ≤ 1 → (attempted integers failing (hourly (pos 1)) 0 0 j).1 ≢ none
unfolding pause delay_before next_retry_delay execute_with_timeout
both_fail zero h e = ground arith
both_fail (suc zero) h e = ground arith
both_fail (suc (suc j)) h e = omega arith

execute-all_failed_example :
    (e : String) × ((attempted integers failing (hourly (pos 1)) 0 0 1).1 ≡ some e)
    × (execute integers failing (hourly (pos 1)) 0
        ≡ ((attempted integers failing (hourly (pos 1)) 0 0 1).0, all_failed (pos 2) e))
unfolding ◌+ℤ◌ int64
execute-all_failed_example =
    execute-all_failed integers failing (hourly (pos 1)) 1 0 calm_failing refl both_fail

abbrev later_calls : List LockCall
later_calls =
    acquiring 12 "job:report" "b"
    ∷ refreshing 15 "job:report" "a"
    ∷ releasing 20 "job:report" "b"
    ∷ []

acquire_lock-excludes_example :
    let s' =
      call_all
        (pos 30)
        later_calls
        (call (pos 30) (acquiring 10 "job:report" "a") (empty {F = ℕ} {H = ℕ})) in
    acquire_lock 40 "job:report" (pos 30) "b" s' ≡ (s', ok false)
unfolding acquire_lock empty lookup
acquire_lock-excludes_example =
    acquire_lock-excludes (pos 30) "job:report" "a" "b" 10 40 later_calls empty refl
      (λ e. ground (arith, eq_iff "a" "b")) (omega arith) (omega arith) (omega arith) refl

abbrev one_instance : Setting ℕ
one_instance = record {
  instance_id = "a";
  max_concurrent = 1;
  lock_ttl = pos 30;
  default_policy = policy (pos 3);
}

abbrev fresh : Scheduler ℕ ℕ (MemoryBackend ℕ ℕ)
fresh = record { backend = record { jobs = []; locks = [] }; jobs = []; running = true; slots = 0 }

abbrev holding : Job ℕ ℕ → Scheduler ℕ ℕ (MemoryBackend ℕ ℕ)
holding job = record fresh {
  backend = record { jobs = ("report", job) ∷ []; locks = [] };
  jobs = ("report", job) ∷ [];
}

register-remove_job_example :
    let (s1, e1) = register memory_backend one_instance 7 (hourly (pos 3)) fresh in
    let (s2, e2) = remove_job memory_backend one_instance "report" s1 in
    (e1 ≡ none)
    × (get_job memory_backend one_instance "report" s1
        ≡ ok (prepared memory_backend one_instance (hourly (pos 3)) 7))
    × (e2 ≡ none)
    × (get_job memory_backend one_instance "other" s2
        ≡ get_job memory_backend one_instance "other" fresh)
    × (load_job "report" s2.backend ≡ err job_not_found)
unfolding validate lookup
register-remove_job_example =
    register-remove_job one_instance 7 (hourly (pos 3)) fresh "other" refl refl

pause_job-not_due_example :
    let (s', e) = pause_job memory_backend one_instance 50 "report" (holding (hourly (pos 3))) in
    (e ≡ none)
    × ((j : Job ℕ ℕ) × (load_job "report" s'.backend ≡ ok j) × (is_due 200 j.metadata ≡ false))
unfolding lookup
pause_job-not_due_example =
    pause_job-not_due one_instance 50 200 "report" (holding (hourly (pos 3))) (hourly (pos 3))
      (hourly (pos 3)) refl refl

update_job_after_execution-DueFrom_example : DueFrom 3705 (
    stored "report"
      (update_job_after_execution memory_backend one_instance 105
        (hourly (pos 3))
        (some (run_failed "busy"))
        (holding (hourly (pos 3)))).backend)
unfolding lookup
update_job_after_execution-DueFrom_example =
    update_job_after_execution-DueFrom one_instance 105 (hourly (pos 3)) (hourly (pos 3))
      (holding (hourly (pos 3))) refl 3599 (some (run_failed "busy")) (λ e. ground arith) refl

abbrev single : Job ℕ ℕ
single = report (once_schedule 100 false) (pos 3)

once-DueFrom_example : DueFrom 100 (
    stored "report"
      (update_job_after_execution memory_backend one_instance 105 single none
        (holding single)).backend)
unfolding lookup
once-DueFrom_example =
    once-DueFrom one_instance 105 single single (holding single) refl 99 none (λ e. ground arith)
      refl refl (omega arith)

validate-IsValid_example :
    (default_scheduler_config.tick_interval ≤ℤ pos 0)
      × (my_go.Scheduler.Config.validate default_scheduler_config ≡ err invalid_timeout)
    ⊎ (pos 0 <ℤ default_scheduler_config.tick_interval)
      × ((c' : SchedulerConfig) × (my_go.Scheduler.Config.validate default_scheduler_config ≡ ok c')
          × IsValid c')
validate-IsValid_example = validate-IsValid default_scheduler_config
