-- ===== src/Scheduler/RedisTests.antt =====
-- Witnesses on a server in memory: a lock that another owner asks for, and a job with an interval.
use my_go.Common.{
  ◌*◌, ◌≡◌, ◌≢◌, refl, subst, pos, second, String, List, [], ◌∷◌, none, some, true, Fallible, ok,
  err, lookup, str_eq, if◌then◌else◌, arith, ℕ, Option,
}
use my_go.Redis.Entries.{IsFailure}
use my_go.Redis.Server.{no_entries, server_client, held, server-IsRedis, server-IsStore}
use my_go.Scheduler.{Job, Schedule, interval_schedule, job_pending, validate}
use my_go.Scheduler.Locks.{LockCall, acquiring, refreshing, releasing}
use my_go.Scheduler.Redis.{JobCodec, acquire_lock, load_job, get_jobs_due}
use my_go.Scheduler.RedisLocks.{call, call_all, acquire_lock-locks}
use my_go.Scheduler.RedisJobs.{
  JobCall, saving, updating, IsOpaque, HasSchedule, Unreadable, NothingIn, IsError, job_calls,
  get_jobs_due-none,
}

abbrev calls : List LockCall
calls =
    refreshing (10 * second) "report" "a"
    ∷ releasing (12 * second) "report" "b"
    ∷ acquiring (13 * second) "report" "b"
    ∷ []

a_wins :
    (acquire_lock server_client (5 * second) "report" (pos (30 * second)) "a" no_entries).1
    ≡ ok true
unfolding acquire_lock lookup
a_wins = refl

acquire_lock-locks_example :
    (acquire_lock server_client (34 * second) "report" (pos (30 * second)) "b" (
      call_all server_client (pos (30 * second)) calls (
        call server_client (pos (30 * second)) (acquiring (5 * second) "report" "a") no_entries))).1
    ≢ ok true
acquire_lock-locks_example =
    acquire_lock-locks server_client held server-IsRedis 29 "report" "a" "b" (5 * second)
      (34 * second) calls no_entries a_wins (omega arith) (omega arith)
      (omega arith, (omega arith, (omega arith, tt)))
      (omega arith, (omega arith, (omega arith, tt))) refl

abbrev bare : Option Schedule → Job ℕ ℕ
bare schedule = record {
  name = "report";
  schedule = schedule;
  retry_policy = none;
  timeout = pos 60;
  handler = some 0;
  metadata = record {
    status = job_pending;
    next_run_at = 100;
    last_run_at = none;
    last_error = "";
    run_count = pos 0;
    fail_count = pos 0;
    created_at = 1;
    updated_at = 1;
    locked_by = "";
    locked_until = none;
  };
}

abbrev text_of : Option Schedule → String
text_of none = "{}"
text_of (some s) = "{schedule}"

abbrev json : JobCodec ℕ ℕ
json = record {
  marshal = λ job. ok (text_of job.schedule);
  unmarshal = λ t. if str_eq t "{}" then ok (bare none) else err "an interface with methods";
}

text_same : {a b : String} → ◌≡◌ {A = Fallible String String} (ok a) (ok b) → a ≡ b
text_same e = cc

none_no_text : (t : String) → ◌≡◌ {A = Option String} none (some t) → ⊥
none_no_text t e = cc

json-fails :
    (s : Option Schedule) (t : String)
    → HasSchedule s
    → ◌≡◌ {A = Fallible String String} (ok (text_of s)) (ok t)
    → IsFailure (json.unmarshal t)
json-fails none t h e = absurd h
json-fails (some s) t h e = subst (λ x. IsFailure (json.unmarshal x)) (text_same e) tt

json-IsOpaque : IsOpaque json
json-IsOpaque = λ job t h e. json-fails job.schedule t h e

empty-Unreadable : Unreadable server_client json held no_entries
unfolding lookup
empty-Unreadable = λ at name t e. absurd (none_no_text t e)

abbrev hourly : Job ℕ ℕ
hourly = bare (some (interval_schedule (pos 3600)))

abbrev job_changes : List (JobCall ℕ ℕ)
job_changes = saving 10 hourly ∷ updating 11 "report" hourly.metadata ∷ []

hourly-validate : validate hourly ≡ none
unfolding validate
hourly-validate = refl

get_jobs_due-none_example :
    let d = job_calls server_client json job_changes no_entries in
    IsError (load_job server_client json 200 "report" d)
    × NothingIn (get_jobs_due server_client json 200 d)
get_jobs_due-none_example =
    get_jobs_due-none server_client held server-IsStore json json-IsOpaque job_changes no_entries
      200 "report" empty-Unreadable (hourly-validate, tt)
