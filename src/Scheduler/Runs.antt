-- ===== src/Scheduler/Runs.antt =====
-- When a job runs again, on the in-memory backend.
use my_go.Common.{
  ℕ, suc, ◌+◌, ◌<◌, ◌≡◌, ◌≢◌, refl, sym, ap, subst, pos, Time, String, Option, none, some, false,
  Fallible, ok, err, lookup, lookup-insert, leb, eq_iff, arith,
}
use my_go.Scheduler.{
  Error, Job, JobMetadata, interval_schedule, once_schedule, RunError, lock_acquisition_failed,
  run_failed,
}
use my_go.Scheduler.Schedules.{next_run}
use my_go.Scheduler.Backend.{MemoryBackend, memory_backend, update_metadata, load_job, is_due}
use my_go.Scheduler.Engine.{
  Scheduler, Setting, update_job_after_execution, finish_run, ended_metadata,
}

-- The metadata is there, and due exactly from a time on.
abbrev pub DueFrom : Time → Option JobMetadata → Type 0
DueFrom t none = ⊥
DueFrom t (some md) = (now : Time) → is_due now md ≡ leb t now

module _ {F H : Type 0} where
  pub load_job-update_metadata :
      (now : Time) (name : String) (md : JobMetadata) (held : Job F H) (b : MemoryBackend F H)
      → lookup name b.jobs ≡ some held
      → load_job name (update_metadata now name md b).0
        ≡ ok (record held { metadata = record md { updated_at = now } })
  unfolding load_job update_metadata
  load_job-update_metadata now name md held b there = ground (
    arith,
    eq_iff name name,
    lookup-insert name name (record held { metadata = record md { updated_at = now } }) b.jobs,
  )

  abbrev pub metadata_of : Fallible Error (Job F H) → Option JobMetadata
  metadata_of (err e) = none
  metadata_of (ok job) = some job.metadata

  -- The metadata that the backend has of a job.
  abbrev pub stored : String → MemoryBackend F H → Option JobMetadata
  stored name b = metadata_of (load_job name b)

module _ {F H : Type 0} (setting : Setting F) (now : Time) (job held : Job F H)
    (s : Scheduler F H (MemoryBackend F H))
    (registered : lookup job.name s.backend.jobs ≡ some held) where
  stored-finish_run :
      (e : Option String)
      → stored job.name (finish_run memory_backend setting now job e s).backend
        ≡ some (ended_metadata memory_backend setting now job e)
  stored-finish_run e =
      let md = ended_metadata memory_backend setting now job e in
      ap metadata_of (load_job-update_metadata now job.name md held s.backend registered)

  -- With a positive interval, the metadata of an ended run is due from one interval on.
  interval-DueFrom :
      (n : ℕ) (e : Option String)
      → job.schedule ≡ some (interval_schedule (pos (suc n)))
      → DueFrom (now + suc n) (some (ended_metadata memory_backend setting now job e))
  unfolding next_run
  interval-DueFrom n none h t = rw h (ground arith)
  interval-DueFrom n (some m) h t = rw h (ground arith)

  -- A one-time job after its time keeps it.
  once_ended-DueFrom :
      (u : ℕ) (e : Option String)
      → job.schedule ≡ some (once_schedule (suc u) false)
      → job.metadata.next_run_at ≡ suc u
      → suc u < now
      → DueFrom (suc u) (some (ended_metadata memory_backend setting now job e))
  unfolding next_run
  once_ended-DueFrom u e h at late t = rw h (ground arith)

  -- A registered job with a positive interval has run, with whatever result but a lock that was not
  -- to be had. Once that is recorded, the in-memory backend reports the job as due exactly from one
  -- interval after the end of the run on.
  pub update_job_after_execution-DueFrom :
      (n : ℕ) (e : Option RunError)
      → e ≢ some lock_acquisition_failed
      → job.schedule ≡ some (interval_schedule (pos (suc n)))
      → DueFrom
          (now + suc n)
          (stored job.name (update_job_after_execution memory_backend setting now job e s).backend)
  unfolding update_job_after_execution
  update_job_after_execution-DueFrom n none ran h =
      subst (DueFrom (now + suc n)) (sym (stored-finish_run none)) (interval-DueFrom n none h)
  update_job_after_execution-DueFrom n (some lock_acquisition_failed) ran h = absurd (ran refl)
  update_job_after_execution-DueFrom n (some (run_failed m)) ran h =
      subst (DueFrom (now + suc n)) (sym (stored-finish_run (some m)))
        (interval-DueFrom n (some m) h)

  -- A registered one-time job has run, after its time, with whatever result but a lock that was not to
  -- be had. Once that is recorded, the in-memory backend still reports it as due, from its time on.
  pub once-DueFrom :
      (u : ℕ) (e : Option RunError)
      → e ≢ some lock_acquisition_failed
      → job.schedule ≡ some (once_schedule (suc u) false)
      → job.metadata.next_run_at ≡ suc u
      → suc u < now
      → DueFrom
          (suc u)
          (stored job.name (update_job_after_execution memory_backend setting now job e s).backend)
  unfolding update_job_after_execution
  once-DueFrom u none ran h at late =
      subst (DueFrom (suc u)) (sym (stored-finish_run none)) (once_ended-DueFrom u none h at late)
  once-DueFrom u (some lock_acquisition_failed) ran h at late = absurd (ran refl)
  once-DueFrom u (some (run_failed m)) ran h at late =
      subst (DueFrom (suc u)) (sym (stored-finish_run (some m)))
        (once_ended-DueFrom u (some m) h at late)
