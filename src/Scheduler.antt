-- ===== src/Scheduler.antt =====
-- The job scheduler, internal/pkg/scheduler: the data of job.go, backend.go and errors.go. A handler
-- is a value of a type `H`, and a retry multiplier, a float64, of a type `F`.
pub mod Schedules
pub mod Retry
pub mod Config
pub mod Backend
pub mod Locks
pub mod LockManager
pub mod Redis
pub mod RedisLocks
pub mod RedisJobs
mod RedisTests
pub mod Executor
pub mod Attempts
pub mod Engine
pub mod Lifecycle
pub mod Runs
pub mod Tests
use my_go.Common.{
  ℕ, ℤ, Time, Duration, String, Option, none, some, Bool, true, false, if◌then◌else◌, ◌||◌, before,
  str_eq, leb_ℤ, pos, add_time,
}

-- A parsed cron expression is the `Next` of its `cron.Schedule`.
pub data Schedule : Type 0 where
  cron_schedule : String → (Time → Time) → Schedule
  interval_schedule : Duration → Schedule
  once_schedule : Time → Bool → Schedule

pub data Strategy : Type 0 where
  exponential linear fixed other_strategy : Strategy

pub record RetryPolicy (F : Type 0) : Type 0 where
  pub max_retries : ℤ
  pub initial_interval : Duration
  pub max_interval : Duration
  pub multiplier : F
  pub strategy : Strategy

pub data JobStatus : Type 0 where
  job_pending job_running job_completed job_failed job_paused job_cancelled : JobStatus

pub record JobMetadata : Type 0 where
  pub status : JobStatus
  pub next_run_at : Time
  pub last_run_at : Option Time
  pub last_error : String
  pub run_count : ℤ
  pub fail_count : ℤ
  pub created_at : Time
  pub updated_at : Time
  pub locked_by : String
  pub locked_until : Option Time

pub record Job (F H : Type 0) : Type 0 where
  pub name : String
  pub schedule : Option Schedule
  pub retry_policy : Option (RetryPolicy F)
  pub timeout : Duration
  pub handler : Option H
  pub metadata : JobMetadata

pub data Error : Type 0 where
  invalid_job_name invalid_schedule invalid_handler invalid_timeout : Error
  job_not_found job_already_exists job_not_paused : Error
  scheduler_not_started scheduler_already_started : Error
  lock_not_held lock_owned_by_other : Error
  backend_failed : String → Error  -- an error of Redis or of encoding/json, with its message

-- The error of a run under the lock: `ErrLockAcquisitionFailed`, or another with its message.
pub data RunError : Type 0 where
  lock_acquisition_failed : RunError
  run_failed : String → RunError

pub record LockInfo : Type 0 where
  pub key : String
  pub owner : String
  pub expires_at : Time

-- `Job.Validate`: the first check that fails.
unfoldable pub validate : {F H : Type 0} → Job F H → Option Error
validate j = if str_eq j.name "" then some invalid_job_name else elim j.schedule [
  | none ↦ some invalid_schedule
  | some s ↦ elim j.handler [
    | none ↦ some invalid_handler
    | some h ↦ if leb_ℤ j.timeout (pos 0) then some invalid_timeout else none
  ]
]
