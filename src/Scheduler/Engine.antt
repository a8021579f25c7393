-- ===== src/Scheduler/Engine.antt =====
-- The scheduler itself, scheduler.go, over any backend with states in `S`, and one run of a job under
-- its lock (lock.go). A method that changes state runs under the mutex; it is given the clock.
use Prim.Native.String.{◌++◌ as append}
use my_go.Common.{
  ℕ, ◌+◌, ◌-◌, ℤ, pos, ◌+ℤ◌, int64, Time, Duration, String, List, [], ◌∷◌, Option, none, some, Bool,
  true, false, ltb, is_zero_time, if◌then◌else◌, Fallible, ok, err, StringMap, lookup, insert,
  erase,
}
use my_go.Scheduler.{
  Job, JobMetadata, JobStatus, job_pending, job_running, job_completed, job_failed, job_paused,
  RetryPolicy, Error, validate, job_not_found, job_already_exists, job_not_paused,
  scheduler_not_started, scheduler_already_started, RunError, lock_acquisition_failed, run_failed,
}
use my_go.Scheduler.Schedules.{next_run}
use my_go.Scheduler.Backend.{Backend, values}

-- `slots` counts the used places of the worker pool.
pub record Scheduler (F H S : Type 0) : Type 0 where
  pub backend : S
  pub jobs : StringMap (Job F H)
  pub running : Bool
  pub slots : ℕ

-- What does not change: who runs, how many at once, the lock's ttl, and the default policy.
pub record Setting (F : Type 0) : Type 0 where
  pub instance_id : String
  pub max_concurrent : ℕ
  pub lock_ttl : Duration
  pub default_policy : RetryPolicy F

module _ {F H S : Type 0} (backend : Backend F H S) (setting : Setting F) where
  open backend use {
    save_job, load_jobs, update_metadata, delete_job, acquire_lock, release_lock, get_jobs_due,
  }

  -- `job.Schedule.NextRun(t)`; a job without a schedule is not registered.
  abbrev pub next_run_of : Job F H → Time → Time
  next_run_of job t = elim job.schedule [ none ↦ 0 | some schedule ↦ next_run schedule t ]

  abbrev pub fresh_metadata : Job F H → Time → JobMetadata
  fresh_metadata job now = record {
    status = job_pending;
    next_run_at = next_run_of job now;
    last_run_at = none;
    last_error = "";
    run_count = pos 0;
    fail_count = pos 0;
    created_at = now;
    updated_at = now;
    locked_by = "";
    locked_until = none;
  }

  abbrev pub policy_or_default : Option (RetryPolicy F) → Option (RetryPolicy F)
  policy_or_default none = some setting.default_policy
  policy_or_default (some policy) = some policy

  -- The job as `Register` stores it.
  abbrev pub prepared : Job F H → Time → Job F H
  prepared job now = record job {
    metadata = fresh_metadata job now;
    retry_policy = policy_or_default job.retry_policy;
  }

  unfoldable pub register : Time → Job F H → Scheduler F H S → Scheduler F H S × Option Error
  register now job s = elim (validate job) [
    | some e ↦ (s, some e)
    | none ↦ elim (lookup job.name s.jobs) [
      | some old ↦ (s, some job_already_exists)
      | none ↦
          let (b, e) = save_job now (prepared job now) s.backend in
          elim e [
            | some x ↦ (record s { backend = b }, some x)
            | none ↦
                (record s { backend = b; jobs = insert job.name (prepared job now) s.jobs }, none)
          ]
    ]
  ]

  -- A metadata update of a job in the registry, which the backend is told.
  abbrev pub store_metadata :
      Time → String → Job F H → JobMetadata → Scheduler F H S → Scheduler F H S × Option Error
  store_metadata now name job md s =
      let (b, (md', e)) = update_metadata now name md s.backend in
      (record s { backend = b; jobs = insert name (record job { metadata = md' }) s.jobs }, e)

  unfoldable pub pause_job : Time → String → Scheduler F H S → Scheduler F H S × Option Error
  pause_job now name s = elim (lookup name s.jobs) [
    | none ↦ (s, some job_not_found)
    | some job ↦
        store_metadata now name job (record job.metadata { status = job_paused; updated_at = now })
          s
  ]

  abbrev pub is_paused : JobStatus → Bool
  is_paused job_paused = true
  is_paused _ = false

  unfoldable pub resume_job : Time → String → Scheduler F H S → Scheduler F H S × Option Error
  resume_job now name s = elim (lookup name s.jobs) [
    | none ↦ (s, some job_not_found)
    | some job ↦
        let md = record job.metadata {
          status = job_pending;
          next_run_at = next_run_of job now;
          updated_at = now;
        } in
        let resumed = store_metadata now name job md s in
        if is_paused job.metadata.status then resumed else (s, some job_not_paused)
  ]

  unfoldable pub remove_job : String → Scheduler F H S → Scheduler F H S × Option Error
  remove_job name s = elim (lookup name s.jobs) [
    | none ↦ (s, some job_not_found)
    | some job ↦
        let (b, e) = delete_job name s.backend in
        elim e [
          | some x ↦ (record s { backend = b }, some x)
          | none ↦ (record s { backend = b; jobs = erase name s.jobs }, none)
        ]
  ]

  unfoldable pub get_job : String → Scheduler F H S → Fallible Error (Job F H)
  get_job name s = elim (lookup name s.jobs) [ none ↦ err job_not_found | some job ↦ ok job ]

  unfoldable pub get_all_jobs : Scheduler F H S → List (Job F H)
  get_all_jobs s = values s.jobs

  unfoldable pub insert_all : List (Job F H) → StringMap (Job F H) → StringMap (Job F H)
  insert_all [] m = m
  insert_all (job ∷ rest) m = insert_all rest (insert job.name job m)

  abbrev pub with_loaded :
      Scheduler F H S → Fallible Error (List (Job F H)) → Scheduler F H S × Option Error
  with_loaded s (err e) = (s, some e)
  with_loaded s (ok found) = (record s { jobs = insert_all found s.jobs; running = true }, none)

  unfoldable pub start : Scheduler F H S → Scheduler F H S × Option Error
  start s =
      if s.running then (s, some scheduler_already_started) else with_loaded s (load_jobs s.backend)

  -- `Stop`; the wait for the running jobs, which the caller's context may end, is left out.
  unfoldable pub stop : Scheduler F H S → Scheduler F H S × Option Error
  stop s =
      if s.running then (record s { running = false }, none) else (s, some scheduler_not_started)

  -- The loop of `tick`: a due job is started if the pool has a free place, and skipped if not.
  unfoldable pub start_due : List (Job F H) → ℕ → ℕ × List (Job F H)
  start_due [] used = (used, [])
  start_due (job ∷ rest) used =
      let (used1, started1) = start_due rest (used + 1) in
      let skipped = start_due rest used in
      if ltb used setting.max_concurrent then (used1, job ∷ started1) else skipped

  -- `tick`: the new state, and the copies of the jobs whose goroutines start.
  unfoldable pub tick : Time → Scheduler F H S → Scheduler F H S × List (Job F H)
  tick now s = elim (get_jobs_due now s.backend) [
    | err e ↦ (s, [])
    | ok due ↦ let (used, started) = start_due due s.slots in (record s { slots = used }, started)
  ]

  -- `executeJob` up to the lock; the error of the update is only logged.
  unfoldable pub begin_run : Time → Job F H → Scheduler F H S → Scheduler F H S × Job F H
  begin_run now job s =
      let md = record job.metadata {
        status = job_running;
        locked_by = setting.instance_id;
        last_run_at = some now;
        run_count = int64 (job.metadata.run_count +ℤ pos 1);
      } in
      let (b, (md', e)) = update_metadata now job.name md s.backend in
      (record s { backend = b }, record job { metadata = md' })

  -- `AcquireAndExecute` of lock.go. While the executor runs, the refresh of the lock and other
  -- instances may change the backend, so the executor is given it. The texts of errors that are
  -- wrapped are left out; a failure to release the lock is only logged.
  abbrev pub lock_key : Job F H → String
  lock_key job = append "job:" job.name

  abbrev pub run_error_of : Option String → Option RunError
  run_error_of none = none
  run_error_of (some message) = some (run_failed message)

  unfoldable pub acquire_and_execute :
      {W : Type 0}
      → (Job F H → S × W → (S × W) × Option String)
      → Time
      → Job F H
      → S × W
      → (S × W) × Option RunError
  acquire_and_execute executor now job (b, w) =
      let owner = setting.instance_id in
      let (b1, acquired) = acquire_lock now (lock_key job) setting.lock_ttl owner b in
      let ((b2, w2), failed) = executor job (b1, w) in
      let b3 = (release_lock (lock_key job) owner b2).0 in
      elim acquired [
        | err e ↦ ((b1, w), some (run_failed "failed to acquire lock"))
        | ok won ↦
            if won then ((b3, w2), run_error_of failed) else ((b1, w), some lock_acquisition_failed)
      ]

  -- What `updateJobAfterExecution` stores, for a run that ended without or with an error.
  abbrev pub next_status : Option String → JobStatus
  next_status none = job_pending
  next_status (some message) = job_failed

  abbrev pub error_text : Option String → String
  error_text none = ""
  error_text (some message) = message

  abbrev pub counted_failures : Option String → ℤ → ℤ
  counted_failures none n = n
  counted_failures (some message) n = int64 (n +ℤ pos 1)

  abbrev pub ended_metadata : Time → Job F H → Option String → JobMetadata
  ended_metadata now job e =
      let next = next_run_of job now in
      record job.metadata {
        status = if is_zero_time next then job_completed else next_status e;
        next_run_at = if is_zero_time next then job.metadata.next_run_at else next;
        last_error = error_text e;
        fail_count = counted_failures e job.metadata.fail_count;
        locked_by = "";
        locked_until = none;
        updated_at = now;
      }

  -- The job in the registry gets the metadata, if it is still there.
  abbrev pub refresh_local : String → JobMetadata → StringMap (Job F H) → StringMap (Job F H)
  refresh_local name md jobs = elim (lookup name jobs) [
    | none ↦ jobs
    | some job ↦ insert name (record job { metadata = md }) jobs
  ]

  abbrev pub finish_run : Time → Job F H → Option String → Scheduler F H S → Scheduler F H S
  finish_run now job e s =
      let (b, (md, x)) = update_metadata now job.name (ended_metadata now job e) s.backend in
      record s { backend = b; jobs = refresh_local job.name md s.jobs }

  unfoldable pub update_job_after_execution :
      Time → Job F H → Option RunError → Scheduler F H S → Scheduler F H S
  update_job_after_execution now job (some lock_acquisition_failed) s = s
  update_job_after_execution now job (some (run_failed message)) s =
      finish_run now job (some message) s
  update_job_after_execution now job none s = finish_run now job none s

  -- `executeJob`, at its three clock readings; the place in the pool is given back.
  unfoldable pub execute_job :
      {W : Type 0}
      → (Job F H → S × W → (S × W) × Option String)
      → Time
      → Time
      → Time
      → Job F H
      → Scheduler F H S × W
      → Scheduler F H S × W
  execute_job executor t_begin t_lock t_end job (s, w) =
      let (s1, job1) = begin_run t_begin job s in
      let ((b, w'), e) = acquire_and_execute executor t_lock job1 (s1.backend, w) in
      let s2 = update_job_after_execution t_end job1 e (record s1 { backend = b }) in
      (record s2 { slots = s2.slots - 1 }, w')
