-- ===== src/Worker/Tests.antt =====
-- Witnesses: a task of type mail, and a collector that has seen one.
use my_go.Common.{
  zero, ◌≡◌, refl, ℤ, pos, String, [], ◌∷◌, none, some, if◌then◌else◌, lookup, str_eq, arith,
}
use my_go.Worker.{Task}
use my_go.Worker.Metrics.{new_metrics_collector, record_task, IsBounded, record_task-IsBounded}
use my_go.Worker.Redis.{Formats, message_to_task, task_to_values}
use my_go.Worker.RoundTrip.{ReadsBack, message_to_task-task_to_values}

abbrev mail : ℤ → Task
mail n = record {
  id = "1-0";
  payload = [];
  metadata = ("type", "mail") ∷ [];
  retry = n;
  max_retry = pos 3;
  timeout = pos 0;
  created_at = 1500000000;
  scheduled_at = 0;
}

record_task-IsBounded_example :
    IsBounded (record_task "mail" "success" (pos 3) (pos 1) new_metrics_collector)
unfolding new_metrics_collector lookup
record_task-IsBounded_example =
    record_task-IsBounded "mail" "success" (pos 3) (pos 1) new_metrics_collector
      (λ key. omega arith)

abbrev small_itoa : ℤ → String
small_itoa (pos zero) = "0"
small_itoa _ = "3"

-- The formats as far as the task below uses them.
abbrev small_formats : Formats
small_formats = record {
  bytes_to_string = λ b. "";
  string_to_bytes = λ s. [];
  format_time = λ t. "1970";
  parse_time = λ s. if str_eq s "1970" then some 1000000000 else none;
  itoa = small_itoa;
  atoi = λ s. if str_eq s "0" then some (pos 0) else some (pos 3);
  format_duration = λ d. "0s";
  parse_duration = λ s. some (pos 0);
  marshal = λ m. some "{type:mail}";
  unmarshal = λ s. if str_eq s "" then none else some (("type", "mail") ∷ []);
}

mail-ReadsBack : ReadsBack small_formats (mail (pos 0)) "{type:mail}"
mail-ReadsBack = record {
  bytes_back = refl;
  retry_back = refl;
  max_retry_back = refl;
  time_back = refl;
  duration_back = refl;
  metadata_written = refl;
  metadata_back = refl;
}

message_to_task-task_to_values_example :
    let back =
      message_to_task small_formats
        (record { id = "2-0"; values = task_to_values small_formats (mail (pos 0)) }) in
    (back.payload ≡ [])
    × (back.retry ≡ pos 0)
    × (back.max_retry ≡ pos 3)
    × (back.created_at ≡ 1000000000)
    × (back.timeout ≡ pos 0)
    × (lookup "type" back.metadata ≡ some "mail")
unfolding lookup
message_to_task-task_to_values_example =
    message_to_task-task_to_values small_formats (mail (pos 0)) "{type:mail}" "2-0" "type"
      (refl, tt) mail-ReadsBack
