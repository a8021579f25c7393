-- ===== src/Scheduler/Redis.antt =====
-- The scheduler's Redis backend, internal/pkg/scheduler/backend_redis.go.
use Prim.Native.String.{◌++◌ as append}
use my_go.Common.{
  ℤ, pos, negsuc, zero, suc, Time, Duration, String, List, [], ◌∷◌, Option, none, some, Bool, false,
  if◌then◌else◌, Fallible, ok, err, str_eq,
}
use my_go.Redis.{Client, set_command, sadd_command, srem_command, del_command, whole_seconds}
use my_go.Scheduler.{Job, JobMetadata, Error, job_not_found, lock_not_held, backend_failed}
use my_go.Scheduler.Backend.{Backend, is_due}

-- What encoding/json makes of a job, and of the text of one.
pub record JobCodec (F H : Type 0) : Type 0 where
  pub marshal : Job F H → Fallible String String
  pub unmarshal : String → Fallible String (Job F H)

abbrev pub job_key : String → String
job_key name = append "scheduler:job:" name

abbrev pub lock_key : String → String
lock_key key = append "scheduler:lock:" key

abbrev pub jobs_set : String
jobs_set = "scheduler:jobs"

abbrev pub wrapped : {A : Type 0} → String → Fallible String A → Fallible Error A
wrapped message (ok a) = ok a
wrapped message (err e) = err (backend_failed (append message e))

abbrev pub wrapped_error : String → Option String → Option Error
wrapped_error message none = none
wrapped_error message (some e) = some (backend_failed (append message e))

-- The answer of a script: 0 is that the lock is not the caller's.
abbrev pub unless_zero : String → Fallible String ℤ → Option Error
unless_zero message (err e) = some (backend_failed (append message e))
unless_zero message (ok (pos zero)) = some lock_not_held
unless_zero message (ok (pos (suc n))) = none
unless_zero message (ok (negsuc n)) = none

-- `redis.call("get", KEYS[1]) == ARGV[1]`
abbrev pub is_value : Option String → String → Bool
is_value none owner = false
is_value (some v) owner = str_eq v owner

module _ {D : Type 0} (client : Client D) where
  unfoldable pub acquire_lock : Time → String → Duration → String → D → D × Fallible Error Bool
  acquire_lock now key ttl owner d =
      let (d', x) = client.set_nx now (lock_key key) owner ttl d in
      (d', wrapped "failed to acquire lock: " x)

  unfoldable pub release_script : Time → String → String → D → D × Fallible String ℤ
  release_script now key owner d =
      let (d', n) = client.call_del now key d in
      if is_value (client.call_get now key d) owner then (d', ok n) else (d, ok (pos 0))

  unfoldable pub release_lock : Time → String → String → D → D × Option Error
  release_lock now key owner d =
      let (d', x) = client.run_script (release_script now (lock_key key) owner) d in
      (d', unless_zero "failed to release lock: " x)

  unfoldable pub refresh_script : Time → String → String → ℤ → D → D × Fallible String ℤ
  refresh_script now key owner seconds d =
      let (d', n) = client.call_expire now key seconds d in
      if is_value (client.call_get now key d) owner then (d', ok n) else (d, ok (pos 0))

  unfoldable pub refresh_lock : Time → String → Duration → String → D → D × Option Error
  refresh_lock now key ttl owner d =
      let script = refresh_script now (lock_key key) owner (whole_seconds ttl) in
      let (d', x) = client.run_script script d in (d', unless_zero "failed to refresh lock: " x)

module _ {F H D : Type 0} (client : Client D) (codec : JobCodec F H) where
  open codec use {marshal, unmarshal}

  -- `job.Metadata.CreatedAt` is set where the key is not there.
  abbrev pub stamped : Time → ℤ → JobMetadata → JobMetadata
  stamped now (pos zero) md = record md { updated_at = now; created_at = now }
  stamped now (pos (suc n)) md = record md { updated_at = now }
  stamped now (negsuc n) md = record md { updated_at = now }

  abbrev pub save_marshalled : Time → Job F H → Fallible String String → D → D × Option Error
  save_marshalled now job (err e) d =
      (d, some (backend_failed (append "failed to marshal job: " e)))
  save_marshalled now job (ok text) d =
      let commands =
        set_command (job_key job.name) text (pos 0) ∷ sadd_command jobs_set job.name ∷ [] in
      let (d', x) = client.exec now commands d in (d', wrapped_error "failed to save job: " x)

  abbrev pub save_known : Time → Job F H → Fallible String ℤ → D → D × Option Error
  save_known now job (err e) d =
      (d, some (backend_failed (append "failed to check job existence: " e)))
  save_known now job (ok n) d =
      let job' = record job { metadata = stamped now n job.metadata } in
      save_marshalled now job' (marshal job') d

  -- The caller's job, which the method has a pointer to, gets the times as well; that is left out.
  unfoldable pub save_job : Time → Job F H → D → D × Option Error
  save_job now job d = save_known now job (client.exists now (job_key job.name) d) d

  unfoldable pub load_answer : Fallible String (Option String) → Fallible Error (Job F H)
  load_answer (err e) = err (backend_failed (append "failed to load job: " e))
  load_answer (ok none) = err job_not_found
  load_answer (ok (some text)) = wrapped "failed to unmarshal job: " (unmarshal text)

  unfoldable pub load_job : Time → String → D → Fallible Error (Job F H)
  load_job now name d = load_answer (client.get now (job_key name) d)

  abbrev pub cons_if_ok : Fallible Error (Job F H) → List (Job F H) → List (Job F H)
  cons_if_ok (ok job) jobs = job ∷ jobs
  cons_if_ok (err e) jobs = jobs

  -- The loop of `LoadJobs`: a job that is not loaded is skipped.
  unfoldable pub load_named : Time → List String → D → List (Job F H)
  load_named now [] d = []
  load_named now (name ∷ names) d = cons_if_ok (load_job now name d) (load_named now names d)

  abbrev pub load_members :
      Time → Fallible String (List String) → D → Fallible Error (List (Job F H))
  load_members now (err e) d = err (backend_failed (append "failed to load job names: " e))
  load_members now (ok names) d = ok (load_named now names d)

  unfoldable pub load_jobs : Time → D → Fallible Error (List (Job F H))
  load_jobs now d = load_members now (client.smembers jobs_set d) d

  abbrev pub update_loaded :
      Time → JobMetadata → Fallible Error (Job F H) → D → D × (JobMetadata × Option Error)
  update_loaded now md (err e) d = (d, (md, some e))
  update_loaded now md (ok job) d =
      let md' = record md { updated_at = now } in
      let (d', x) = save_job now (record job { metadata = md' }) d in (d', (md', x))

  unfoldable pub update_metadata :
      Time → String → JobMetadata → D → D × (JobMetadata × Option Error)
  update_metadata now name md d = update_loaded now md (load_job now name d) d

  unfoldable pub delete_job : Time → String → D → D × Option Error
  delete_job now name d =
      let commands = del_command (job_key name) ∷ srem_command jobs_set name ∷ [] in
      let (d', x) = client.exec now commands d in (d', wrapped_error "failed to delete job: " x)

  unfoldable pub due_in : Time → List (Job F H) → List (Job F H)
  due_in now [] = []
  due_in now (job ∷ jobs) =
      let others = due_in now jobs in if is_due now job.metadata then job ∷ others else others

  abbrev pub due_of : Time → Fallible Error (List (Job F H)) → Fallible Error (List (Job F H))
  due_of now (err e) = err e
  due_of now (ok jobs) = ok (due_in now jobs)

  unfoldable pub get_jobs_due : Time → D → Fallible Error (List (Job F H))
  get_jobs_due now d = due_of now (load_jobs now d)

  -- The calls that have no time of their own are at `now`.
  abbrev pub redis_backend : Time → Backend F H D
  redis_backend now = record {
    save_job = save_job;
    load_jobs = load_jobs now;
    load_job = load_job now;
    update_metadata = update_metadata;
    delete_job = delete_job now;
    acquire_lock = acquire_lock client;
    release_lock = release_lock client now;
    refresh_lock = refresh_lock client;
    get_jobs_due = get_jobs_due;
  }
