-- ===== src/Scheduler/Schedules.antt =====
-- When a job runs next: schedule.go.
use Prim.Native.String.{◌++◌ as append}
use my_go.Common.{
  Time, Duration, String, true, false, Fallible, ok, err, if◌then◌else◌, ◌||◌, before, add_time,
}
use my_go.Scheduler.{Schedule, cron_schedule, interval_schedule, once_schedule}

-- `NextRun` of the three schedules; 0 is the zero time, "never again".
unfoldable pub next_run : Schedule → Time → Time
next_run (cron_schedule expression next) from = next from
next_run (interval_schedule d) from = add_time from d
next_run (once_schedule run_at ran) from = if ran || before run_at from then 0 else run_at

-- `MarkRan`
unfoldable pub mark_ran : Schedule → Schedule
mark_ran (cron_schedule expression next) = cron_schedule expression next
mark_ran (interval_schedule d) = interval_schedule d
mark_ran (once_schedule run_at ran) = once_schedule run_at true

-- `NewCronSchedule`; `parse` is the parser of robfig/cron with its five fields and descriptors.
abbrev parsed_schedule : String → Fallible String (Time → Time) → Fallible String Schedule
parsed_schedule expression (ok next) = ok (cron_schedule expression next)
parsed_schedule expression (err e) = err (append "invalid cron expression: " e)

unfoldable pub new_cron_schedule :
    (String → Fallible String (Time → Time)) → String → Fallible String Schedule
new_cron_schedule parse expression = parsed_schedule expression (parse expression)

unfoldable pub new_interval_schedule : Duration → Schedule
new_interval_schedule interval = interval_schedule interval

unfoldable pub new_once_schedule : Time → Schedule
new_once_schedule run_at = once_schedule run_at false

-- `Type` of the three schedules.
unfoldable pub type_of : Schedule → String
type_of (cron_schedule expression next) = "cron"
type_of (interval_schedule d) = "interval"
type_of (once_schedule run_at ran) = "once"

-- `String`; how package time prints a duration, and a time by RFC 3339, is a parameter.
unfoldable pub string_of : (Duration → String) → (Time → String) → Schedule → String
string_of show_duration show_time (cron_schedule expression next) =
    append "cron(" (append expression ")")
string_of show_duration show_time (interval_schedule d) = append "every " (show_duration d)
string_of show_duration show_time (once_schedule run_at ran) = append "once at " (show_time run_at)
