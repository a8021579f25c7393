-- ===== src/Worker/Metrics.antt =====
-- The metrics of middleware_metrics.go.
use my_go.Common.{
  ℕ, ◌≤◌, suc, ℤ, pos, ◌+ℤ◌, int64, ltb_ℤ, ltb, Time, Duration, String, List, [], ◌∷◌, ◌++◌, length,
  length-append, Option, none, some, if◌then◌else◌, StringMap, lookup, insert, lookup-insert,
  str_eq, eq_iff, sub_time, arith,
}
use my_go.Worker.{Ending, succeeded, failed, panicked, fatal}
use my_go.Worker.Middlewares.{Middleware, or_else}

pub record MetricsCollector : Type 0 where
  pub task_processed : StringMap (StringMap ℤ)
  pub task_durations : StringMap (List Duration)
  pub task_retries : StringMap ℤ

unfoldable pub new_metrics_collector : MetricsCollector
new_metrics_collector = record { task_processed = []; task_durations = []; task_retries = [] }

-- `m[key]++` on a map of counters.
abbrev pub count_up : String → StringMap ℤ → StringMap ℤ
count_up key m = insert key (int64 (or_else (lookup key m) (pos 0) +ℤ pos 1)) m

abbrev pub tail : List Duration → List Duration
tail [] = []
tail (d ∷ ds) = ds

-- The last thousand durations are kept.
abbrev pub appended : List Duration → Duration → List Duration
appended ds d = let all = ds ++ (d ∷ []) in if ltb 1000 (length all) then tail all else all

unfoldable pub record_task : String → String → Duration → ℤ → MetricsCollector → MetricsCollector
record_task task_type status duration retry mc = record {
  task_processed =
      insert task_type (count_up status (or_else (lookup task_type mc.task_processed) []))
        mc.task_processed;
  task_durations =
      insert task_type (appended (or_else (lookup task_type mc.task_durations) []) duration)
        mc.task_durations;
  task_retries =
      if ltb_ℤ (pos 0) retry then count_up task_type mc.task_retries else mc.task_retries;
}

-- An empty type counts as none.
abbrev pub known_type : Option String → String
known_type none = "unknown"
known_type (some t) = if str_eq t "" then "unknown" else t

-- `status`; a panic passes the recording by.
abbrev pub status_of : Ending → Option String
status_of succeeded = some "success"
status_of (failed e) = some "error"
status_of (panicked p) = none
status_of (fatal p) = none

-- The collector is a part of the world, read and written by `get` and `put`.
unfoldable pub metrics_middleware :
    {W : Type 0} → (W → Time) → (W → MetricsCollector) → (MetricsCollector → W → W) → Middleware W
metrics_middleware clock get put next ctx task w =
    let (w', r) = next ctx task w in
    let duration = sub_time (clock w') (clock w) in
    let task_type = known_type (lookup "type" task.metadata) in
    elim (status_of r) [
      | none ↦ (w', r)
      | some status ↦ (put (record_task task_type status duration task.retry (get w')) w', r)
    ]

-- No type has more than a thousand durations.
abbrev pub IsBounded : MetricsCollector → Type 0
IsBounded mc = (key : String) → length (or_else (lookup key mc.task_durations) []) ≤ 1000

length-tail : (ds : List Duration) (n : ℕ) → length ds ≤ suc n → length (tail ds) ≤ n
length-tail [] n h = omega arith
length-tail (d ∷ ds) n h = omega arith

length-appended :
    (ds : List Duration) (d : Duration) → length ds ≤ 1000 → length (appended ds d) ≤ 1000
length-appended ds d h =
    ground (arith, length-append ds (d ∷ []), length-tail (ds ++ (d ∷ [])) 1000)

-- If the collector has at most a thousand durations for each task type, it has after another task is
-- recorded.
pub record_task-IsBounded :
    (task_type status : String) (duration : Duration) (retry : ℤ) (mc : MetricsCollector)
    → IsBounded mc
    → IsBounded (record_task task_type status duration retry mc)
unfolding record_task
record_task-IsBounded task_type status duration retry mc h key = ground (
  arith,
  h key,
  h task_type,
  eq_iff task_type key,
  lookup-insert task_type key (appended (or_else (lookup task_type mc.task_durations) []) duration)
      mc.task_durations,
  length-appended (or_else (lookup task_type mc.task_durations) []) duration,
)
