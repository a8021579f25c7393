-- ===== src/Scheduler/Lifecycle.antt =====
-- Registration, pausing and removal of jobs, and the worker pool.
use my_go.Common.{
  StringMap, Time, none, some, false, ok, err, lookup, insert, erase, lookup-insert, lookup-erase,
  eq_iff, ℕ, ◌+◌, ◌-◌, ◌≡◌, refl, String, List, [], ◌∷◌, length, ltb, if◌then◌else◌, arith,
}
use my_go.Scheduler.{Job, JobMetadata, job_paused, job_not_found, validate}
use my_go.Scheduler.Backend.{
  Backend, MemoryBackend, memory_backend, is_due, load_job, update_metadata, save_job, delete_job,
}
use my_go.Scheduler.Runs.{load_job-update_metadata}
use my_go.Scheduler.Engine.{
  Scheduler, Setting, start_due, pause_job, register, remove_job, get_job, prepared,
}

abbrev min : ℕ → ℕ → ℕ
min a b = if ltb a b then a else b

module _ {F H S : Type 0} (backend : Backend F H S) (setting : Setting F) where
  -- A tick starts as many of the due jobs as there are free places in the worker pool, all of them
  -- if they fit, and takes a place for each.
  start_due-min :
      (due : List (Job F H)) (used : ℕ)
      → let (used', started) = start_due backend setting due used in
        (used' ≡ used + length started)
        × (length started ≡ min (length due) (setting.max_concurrent - used))
  unfolding start_due
  start_due-min [] used = ground arith
  start_due-min (job ∷ rest) used =
      ground (arith, start_due-min rest used, start_due-min rest (used + 1))

module _ {F H : Type 0} (setting : Setting F) where
  update_metadata-found :
      (now : Time) (name : String) (md : JobMetadata) (held : Job F H) (b : MemoryBackend F H)
      → lookup name b.jobs ≡ some held
      → (update_metadata now name md b).1.1 ≡ none
  unfolding update_metadata
  update_metadata-found now name md held b there = rw (update_metadata, there)

  -- A job of the registry and of the in-memory backend that is paused is not due there at any time.
  pub pause_job-not_due :
      (now t : Time) (name : String) (s : Scheduler F H (MemoryBackend F H)) (job held : Job F H)
      → lookup name s.jobs ≡ some job
      → lookup name s.backend.jobs ≡ some held
      → let (s', e) = pause_job memory_backend setting now name s in
        (e ≡ none)
        × ((j : Job F H) × (load_job name s'.backend ≡ ok j) × (is_due t j.metadata ≡ false))
  unfolding pause_job update_metadata
  pause_job-not_due now t name s job held mine there =
      let md = record job.metadata { status = job_paused; updated_at = now } in
      rw (pause_job, mine)
        (
          update_metadata-found now name md held s.backend there,
          (_, load_job-update_metadata now name md held s.backend there, refl),
        )

  -- The scheduler with one more job, in its registry and in its backend.
  abbrev added :
      Time → Job F H → Scheduler F H (MemoryBackend F H) → Scheduler F H (MemoryBackend F H)
  added now job s = record s {
    backend = (save_job now (prepared memory_backend setting job now) s.backend).0;
    jobs = insert job.name (prepared memory_backend setting job now) s.jobs;
  }

  register-added :
      (now : Time) (job : Job F H) (s : Scheduler F H (MemoryBackend F H))
      → validate job ≡ none
      → lookup job.name s.jobs ≡ none
      → register memory_backend setting now job s ≡ (added now job s, none)
  unfolding register save_job
  register-added now job s valid free = rw (register, valid) (rw free)

  lookup-stored :
      (name : String) (v : Job F H) (m : StringMap (Job F H))
      → lookup name (insert name v m) ≡ some v
  lookup-stored name v m = ground (arith, eq_iff name name, lookup-insert name name v m)

  load_job-added :
      (now : Time) (job : Job F H) (s : Scheduler F H (MemoryBackend F H))
      → (k : Job F H) × (lookup job.name (added now job s).backend.jobs ≡ some k)
  unfolding save_job
  load_job-added now job s = (_, lookup-stored job.name _ s.backend.jobs)

  remove_job-found :
      (name : String) (s : Scheduler F H (MemoryBackend F H)) (j k : Job F H)
      → lookup name s.jobs ≡ some j
      → lookup name s.backend.jobs ≡ some k
      → remove_job memory_backend setting name s ≡ (
        record s {
          backend = record s.backend { jobs = erase name s.backend.jobs };
          jobs = erase name s.jobs;
        },
        none,
      )
  unfolding remove_job delete_job
  remove_job-found name s j k mine there = rw (remove_job, mine) (ground arith)

  lookup-erase-insert :
      (added_name name : String) (v : Job F H) (m : StringMap (Job F H))
      → lookup added_name m ≡ none
      → lookup name (erase added_name (insert added_name v m)) ≡ lookup name m
  lookup-erase-insert added_name name v m free = ground (
    arith,
    eq_iff added_name name,
    lookup-erase added_name name (insert added_name v m),
    lookup-insert added_name name v m,
  )

  lookup-erased : (name : String) (m : StringMap (Job F H)) → lookup name (erase name m) ≡ none
  lookup-erased name m = ground (arith, eq_iff name name, lookup-erase name name m)

  -- A valid job whose name is free can be registered, and is then got as it was prepared. Its removal
  -- succeeds, leaves every name in the registry as it was, and the in-memory backend does not have the job.
  pub register-remove_job :
      (now : Time) (job : Job F H) (s : Scheduler F H (MemoryBackend F H)) (name : String)
      → validate job ≡ none
      → lookup job.name s.jobs ≡ none
      → let (s1, e1) = register memory_backend setting now job s in
        let (s2, e2) = remove_job memory_backend setting job.name s1 in
        (e1 ≡ none)
        × (get_job memory_backend setting job.name s1
            ≡ ok (prepared memory_backend setting job now))
        × (e2 ≡ none)
        × (get_job memory_backend setting name s2 ≡ get_job memory_backend setting name s)
        × (load_job job.name s2.backend ≡ err job_not_found)
  unfolding get_job load_job
  register-remove_job now job s name valid free =
      let stored_as = prepared memory_backend setting job now in
      let mine = lookup-stored job.name stored_as s.jobs in
      let (k, there) = load_job-added now job s in
      rw (register-added now job s valid free) (
        rw (remove_job-found job.name (added now job s) stored_as k mine there) (
          refl,
          rw (get_job, mine),
          refl,
          rw (get_job, lookup-erase-insert job.name name stored_as s.jobs free),
          rw (load_job, lookup-erased job.name (added now job s).backend.jobs),
        ))
