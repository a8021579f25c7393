-- ===== src/Scheduler/RedisJobs.antt =====
-- Jobs with a schedule are written to Redis and never read back.
use my_go.Common.{
  ◌≡◌, refl, sym, subst, ◌∙◌, inl, inr, ◌⊎◌, Option-cases, Time, ℤ, String, List, [], ◌∷◌, Option,
  none, some, Bool, true, false, if◌then◌else◌, Fallible, ok, err, str_eq,
}
use my_go.Redis.{Client}
use my_go.Redis.Entries.{Entry, IsStore, value_of, IsFailure}
use my_go.Scheduler.{
  Job, JobMetadata, Error, validate, Schedule, invalid_job_name, invalid_schedule,
}
use my_go.Scheduler.Redis.{
  JobCodec, wrapped, job_key, jobs_set, stamped, save_job, save_marshalled, save_known, load_answer,
  load_job, load_named, load_jobs, load_members, due_of, cons_if_ok, update_metadata, update_loaded,
  delete_job, get_jobs_due, due_in,
}

abbrev pub IsError : {A : Type 0} → Fallible Error A → Type 0
IsError (ok a) = ⊥
IsError (err e) = Unit

abbrev pub HasSchedule : Option Schedule → Type 0
HasSchedule none = ⊥
HasSchedule (some s) = Unit

-- A call that writes jobs.
pub data JobCall (F H : Type 0) : Type 0 where
  saving : Time → Job F H → JobCall F H
  updating : Time → String → JobMetadata → JobCall F H
  deleting : Time → String → JobCall F H

has_error : (b : Bool) (x y : Error) → (if b then some x else some y) ≡ none → ⊥
has_error true x y e = cc
has_error false x y e = cc

module _ {F H : Type 0} where
  -- Every job that is saved passes the scheduler's check.
  abbrev pub AllValid : List (JobCall F H) → Type 0
  AllValid [] = Unit
  AllValid (saving t job ∷ cs) = (validate job ≡ none) × AllValid cs
  AllValid (updating t name md ∷ cs) = AllValid cs
  AllValid (deleting t name ∷ cs) = AllValid cs

  abbrev pub NothingIn : Fallible Error (List (Job F H)) → Type 0
  NothingIn (err e) = Unit
  NothingIn (ok []) = Unit
  NothingIn (ok (job ∷ jobs)) = ⊥

  validate-HasSchedule : (job : Job F H) → validate job ≡ none → HasSchedule job.schedule
  unfolding validate
  validate-HasSchedule job e = elim (Option-cases job.schedule) [
    | inl n ↦ absurd (has_error (str_eq job.name "") invalid_job_name invalid_schedule (rw n at e))
    | inr (x, n) ↦ rw n tt
  ]

IsError-wrapped :
    {A : Type 0} (message : String) (x : Fallible String A)
    → IsFailure x
    → IsError (wrapped message x)
IsError-wrapped message (ok a) p = p
IsError-wrapped message (err e) p = tt

ok_same : {a b : Option String} → ◌≡◌ {A = Fallible String (Option String)} (ok a) (ok b) → a ≡ b
ok_same e = cc

-- What encoding/json documents: a job that has a schedule is written with it, and its text is no job
-- again, since a value is not read into an interface that has methods.
abbrev pub IsOpaque : {F H : Type 0} → JobCodec F H → Type 0
IsOpaque {F} {H} codec =
    (job : Job F H) (t : String)
    → HasSchedule job.schedule
    → codec.marshal job ≡ ok t
    → IsFailure (codec.unmarshal t)

module _ {F H D : Type 0} (client : Client D) (codec : JobCodec F H) where
  unfoldable pub job_call : JobCall F H → D → D
  job_call (saving t job) d = (save_job client codec t job d).0
  job_call (updating t name md) d = (update_metadata client codec t name md d).0
  job_call (deleting t name) d = (delete_job client codec t name d).0

  unfoldable pub job_calls : List (JobCall F H) → D → D
  job_calls [] d = d
  job_calls (c ∷ cs) d = job_calls cs (job_call c d)

  -- No key of a job holds a text that can be read.
  abbrev pub Unreadable : (Time → String → D → Option Entry) → D → Type 0
  Unreadable held d =
      (at : Time) (name t : String)
      → value_of (held at (job_key name) d) ≡ some t
      → IsFailure (codec.unmarshal t)

module _ {F H D : Type 0} (client : Client D) (held : Time → String → D → Option Entry)
    (store : IsStore client held) (codec : JobCodec F H) (opaque : IsOpaque codec) where
  open store use {get_law, exec_law}

  Unreadable-save_marshalled :
      (now : Time) (job : Job F H) (x : Fallible String String) (d : D)
      → HasSchedule job.schedule
      → codec.marshal job ≡ x
      → Unreadable client codec held d
      → Unreadable client codec held (save_marshalled client codec now job x d).0
  Unreadable-save_marshalled now job (err e) d h m u = u
  Unreadable-save_marshalled now job (ok text) d h m u = λ at name t e.
      elim (exec_law now at (job_key name) t _ d e) [
        | inl old ↦ u at name t old
        | inr (inl (k, same)) ↦
            subst (λ x. IsFailure (codec.unmarshal x)) same (opaque job text h m)
        | inr (inr none_there) ↦ absurd none_there
      ]

  Unreadable-save_known :
      (now : Time) (job : Job F H) (x : Fallible String ℤ) (d : D)
      → HasSchedule job.schedule
      → Unreadable client codec held d
      → Unreadable client codec held (save_known client codec now job x d).0
  Unreadable-save_known now job (err e) d h u = u
  Unreadable-save_known now job (ok n) d h u =
      let job' : Job F H = record job { metadata = stamped client codec now n job.metadata } in
      Unreadable-save_marshalled now job' (codec.marshal job') d h refl u

  IsError-load_answer :
      (name : String) (at : Time) (d : D) (x : Fallible String (Option String))
      → Unreadable client codec held d
      → (x ≡ ok (value_of (held at (job_key name) d))) ⊎ IsFailure x
      → IsError (load_answer client codec x)
  unfolding load_answer
  IsError-load_answer name at d (err e) u p = tt
  IsError-load_answer name at d (ok none) u p = tt
  IsError-load_answer name at d (ok (some t)) u (inr p) = absurd p
  IsError-load_answer name at d (ok (some t)) u (inl p) =
      IsError-wrapped "failed to unmarshal job: " (codec.unmarshal t)
        (u at name t (sym (ok_same p)))

  IsError-load_job :
      (now : Time) (name : String) (d : D)
      → Unreadable client codec held d
      → IsError (load_job client codec now name d)
  unfolding load_job
  IsError-load_job now name d u = IsError-load_answer name now d _ u (get_law now (job_key name) d)

  Unreadable-update_loaded :
      (now : Time) (md : JobMetadata) (x : Fallible Error (Job F H)) (d : D)
      → IsError x
      → Unreadable client codec held d
      → Unreadable client codec held (update_loaded client codec now md x d).0
  Unreadable-update_loaded now md (ok job) d f u = absurd f
  Unreadable-update_loaded now md (err e) d f u = u

  Unreadable-delete_job :
      (now : Time) (name : String) (d : D)
      → Unreadable client codec held d
      → Unreadable client codec held (delete_job client codec now name d).0
  unfolding delete_job
  Unreadable-delete_job now gone d u = λ at name t e.
      elim (exec_law now at (job_key name) t _ d e) [
        | inl old ↦ u at name t old
        | inr none_there ↦ absurd none_there
      ]

  Unreadable-job_calls :
      (cs : List (JobCall F H)) (d : D)
      → AllValid cs
      → Unreadable client codec held d
      → Unreadable client codec held (job_calls client codec cs d)
  unfolding job_calls job_call save_job update_metadata
  Unreadable-job_calls [] d v u = u
  Unreadable-job_calls (saving t job ∷ cs) d (v, vs) u =
      Unreadable-job_calls cs _ vs (Unreadable-save_known t job _ d (validate-HasSchedule job v) u)
  Unreadable-job_calls (updating t name md ∷ cs) d vs u =
      Unreadable-job_calls cs _ vs
        (Unreadable-update_loaded t md _ d (IsError-load_job t name d u) u)
  Unreadable-job_calls (deleting t name ∷ cs) d vs u =
      Unreadable-job_calls cs _ vs (Unreadable-delete_job t name d u)

  cons_if_ok-IsError :
      (x : Fallible Error (Job F H)) (jobs : List (Job F H))
      → IsError x
      → cons_if_ok client codec x jobs ≡ jobs
  cons_if_ok-IsError (ok job) jobs f = absurd f
  cons_if_ok-IsError (err e) jobs f = refl

  load_named-Unreadable :
      (now : Time) (names : List String) (d : D)
      → Unreadable client codec held d
      → load_named client codec now names d ≡ []
  unfolding load_named
  load_named-Unreadable now [] d u = refl
  load_named-Unreadable now (name ∷ names) d u =
      cons_if_ok-IsError _ _ (IsError-load_job now name d u) ∙ load_named-Unreadable now names d u

  NothingIn-members :
      (now : Time) (x : Fallible String (List String)) (d : D)
      → Unreadable client codec held d
      → NothingIn (due_of client codec now (load_members client codec now x d))
  unfolding due_in
  NothingIn-members now (err e) d u = tt
  NothingIn-members now (ok names) d u = rw (load_named-Unreadable now names d u) tt

  -- The client is Redis, as it is documented, jobs are written and read by encoding/json, and no job of
  -- the server can be read at first, as where there is none. Whatever valid jobs are saved, updated and
  -- deleted after that, and whichever commands fail, loading a job is an error, and no job is due.
  pub get_jobs_due-none :
      (cs : List (JobCall F H)) (d : D) (now : Time) (name : String)
      → Unreadable client codec held d
      → AllValid cs
      → IsError (load_job client codec now name (job_calls client codec cs d))
        × NothingIn (get_jobs_due client codec now (job_calls client codec cs d))
  unfolding get_jobs_due load_jobs
  get_jobs_due-none cs d now name u v =
      let u' = Unreadable-job_calls cs d v u in
      (
        IsError-load_job now name (job_calls client codec cs d) u',
        NothingIn-members now (client.smembers jobs_set (job_calls client codec cs d))
            (job_calls client codec cs d) u',
      )
