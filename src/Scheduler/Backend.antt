-- ===== src/Scheduler/Backend.antt =====
-- What the scheduler needs of a backend (backend.go), and the in-memory one (backend_memory.go).
-- Each of its methods runs under the mutex. Jobs are copied in and out.
use my_go.Common.{
  Time, Duration, String, List, [], ◌∷◌, Option, none, some, Bool, true, false, not, ◌&&◌, ◌||◌,
  if◌then◌else◌, Fallible, ok, err, StringMap, lookup, insert, erase, add_time, after, before,
  is_zero_time, str_eq, ◌==◌,
}
use my_go.Scheduler.{
  Job, JobMetadata, JobStatus, job_paused, job_cancelled, LockInfo, Error, job_not_found,
  lock_not_held, lock_owned_by_other,
}

-- `update_metadata` also sets the update time in the caller's metadata, which it has a pointer to.
pub record Backend (F H S : Type 0) : Type 0 where
  pub save_job : Time → Job F H → S → S × Option Error
  pub load_jobs : S → Fallible Error (List (Job F H))
  pub load_job : String → S → Fallible Error (Job F H)
  pub update_metadata : Time → String → JobMetadata → S → S × (JobMetadata × Option Error)
  pub delete_job : String → S → S × Option Error
  pub acquire_lock : Time → String → Duration → String → S → S × Fallible Error Bool
  pub release_lock : String → String → S → S × Option Error
  pub refresh_lock : Time → String → Duration → String → S → S × Option Error
  pub get_jobs_due : Time → S → Fallible Error (List (Job F H))

pub record MemoryBackend (F H : Type 0) : Type 0 where
  pub jobs : StringMap (Job F H)
  pub locks : StringMap LockInfo

abbrev pub is_held_back : JobStatus → Bool
is_held_back job_paused = true
is_held_back job_cancelled = true
is_held_back _ = false

-- The two tests of the loop in `GetJobsDueForExecution`.
abbrev pub is_due : Time → JobMetadata → Bool
is_due now md =
    not (is_held_back md.status)
    && (not (is_zero_time md.next_run_at) && (before md.next_run_at now || md.next_run_at == now))

-- The entries of the map, in some order.
unfoldable pub values : {V : Type 0} → StringMap V → List V
values [] = []
values ((key, v) ∷ rest) = v ∷ values rest

abbrev pub new_lock : String → String → Time → LockInfo
new_lock key owner until = record { key = key; owner = owner; expires_at = until }

-- A lock that is there, and neither expired nor the caller's own, is refused.
abbrev pub is_refused : Time → String → Option LockInfo → Bool
is_refused now owner none = false
is_refused now owner (some lock) = not (after now lock.expires_at) && not (str_eq lock.owner owner)

module _ {F H : Type 0} where
  unfoldable pub empty : MemoryBackend F H
  empty = record { jobs = []; locks = [] }

  abbrev pub created_at : Time → Option (Job F H) → JobMetadata → Time
  created_at now none md = now
  created_at now (some old) md = md.created_at

  unfoldable pub save_job : Time → Job F H → MemoryBackend F H → MemoryBackend F H × Option Error
  save_job now job s =
      let md = record job.metadata {
        updated_at = now;
        created_at = created_at now (lookup job.name s.jobs) job.metadata;
      } in
      (record s { jobs = insert job.name (record job { metadata = md }) s.jobs }, none)

  unfoldable pub load_jobs : MemoryBackend F H → Fallible Error (List (Job F H))
  load_jobs s = ok (values s.jobs)

  abbrev pub found : Option (Job F H) → Fallible Error (Job F H)
  found none = err job_not_found
  found (some job) = ok job

  unfoldable pub load_job : String → MemoryBackend F H → Fallible Error (Job F H)
  load_job name s = found (lookup name s.jobs)

  unfoldable pub update_metadata :
      Time
      → String
      → JobMetadata
      → MemoryBackend F H
      → MemoryBackend F H × (JobMetadata × Option Error)
  update_metadata now name md s = elim (lookup name s.jobs) [
    | none ↦ (s, (md, some job_not_found))
    | some job ↦
        let md' = record md { updated_at = now } in
        (record s { jobs = insert name (record job { metadata = md' }) s.jobs }, (md', none))
  ]

  unfoldable pub delete_job : String → MemoryBackend F H → MemoryBackend F H × Option Error
  delete_job name s = elim (lookup name s.jobs) [
    | none ↦ (s, some job_not_found)
    | some job ↦ (record s { jobs = erase name s.jobs }, none)
  ]

  unfoldable pub acquire_lock :
      Time
      → String
      → Duration
      → String
      → MemoryBackend F H
      → MemoryBackend F H × Fallible Error Bool
  acquire_lock now key ttl owner s =
      if is_refused now owner (lookup key s.locks) then (s, ok false) else (
        record s { locks = insert key (new_lock key owner (add_time now ttl)) s.locks },
        ok true,
      )

  unfoldable pub release_lock :
      String → String → MemoryBackend F H → MemoryBackend F H × Option Error
  release_lock key owner s = elim (lookup key s.locks) [
    | none ↦ (s, some lock_not_held)
    | some lock ↦
        if str_eq lock.owner owner
        then (record s { locks = erase key s.locks }, none)
        else (s, some lock_owned_by_other)
  ]

  unfoldable pub refresh_lock :
      Time → String → Duration → String → MemoryBackend F H → MemoryBackend F H × Option Error
  refresh_lock now key ttl owner s = elim (lookup key s.locks) [
    | none ↦ (s, some lock_not_held)
    | some lock ↦
        let lock' = record lock { expires_at = add_time now ttl } in
        if str_eq lock.owner owner
        then (record s { locks = insert key lock' s.locks }, none)
        else (s, some lock_owned_by_other)
  ]

  unfoldable pub due_among : Time → StringMap (Job F H) → List (Job F H)
  due_among now [] = []
  due_among now ((key, job) ∷ rest) =
      let others = due_among now rest in if is_due now job.metadata then job ∷ others else others

  unfoldable pub get_jobs_due : Time → MemoryBackend F H → Fallible Error (List (Job F H))
  get_jobs_due now s = ok (due_among now s.jobs)

  -- `Close`
  unfoldable close : MemoryBackend F H → MemoryBackend F H
  close s = record { jobs = []; locks = [] }

  abbrev pub memory_backend : Backend F H (MemoryBackend F H)
  memory_backend = record {
    save_job = save_job;
    load_jobs = load_jobs;
    load_job = load_job;
    update_metadata = update_metadata;
    delete_job = delete_job;
    acquire_lock = acquire_lock;
    release_lock = release_lock;
    refresh_lock = refresh_lock;
    get_jobs_due = get_jobs_due;
  }
