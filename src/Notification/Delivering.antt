-- ===== src/Notification/Delivering.antt =====
-- The notification worker, worker/worker.go, as a handler of the task worker, and the provider of its
-- tasks, worker/provider.go. Both act on the same state: the database and the queue.
use my_go.Common.{
  ℕ, ℤ, pos, Time, String, List, [], ◌∷◌, Option, none, some, Bool, true, false, if◌then◌else◌,
  Fallible, ok, err, StringMap, lookup, str_eq, ◌*ℤ◌, int64, second, ◌*◌,
}
use my_go.Worker.{Task, Ending, succeeded, failed, Handler, Provider, Config, backoff_exponential}
use my_go.Worker.Middlewares.{or_else}
use my_go.Worker.Processing.{Worker, new, register}
use my_go.Notification.{NotificationTarget, NotificationTask, NotificationPayload}
use my_go.Notification.Queue.{InMemoryQueue, receive}
use my_go.Notification.Repository.{
  Database, DbError, increment_attempt, mark_delivered, check_idempotency, reset_delivery_status,
}
use my_go.Notification.Channels.{ChannelResult, SendError, text_at}

pub record App (D : Type 0) : Type 0 where
  pub db_state : D
  pub queue : InMemoryQueue

-- What package fmt and encoding/json do, and the texts of errors.
pub record Texts : Type 0 where
  pub print : ℤ → String
  pub scan : String → Option ℤ
  pub marshal : NotificationPayload → List ℕ
  pub unmarshal : List ℕ → Fallible String NotificationPayload
  pub text_of : SendError → String

module _ (texts : Texts) where
  open texts use {print, marshal}

  abbrev pub payload_of : NotificationTask → NotificationPayload
  payload_of nt = record {
    id = print nt.target_id;
    user_id = nt.target.user_id;
    type_name = nt.notification.type_name;
    content = nt.target.payload;
    priority = nt.notification.priority;
    created_at = nt.target.created_at;
    trace_id = nt.notification.trace_id;
  }

  unfoldable pub convert_to_worker_task : NotificationTask → Task
  convert_to_worker_task nt = record {
    id = print nt.delivery_id;
    payload = marshal (payload_of nt);
    metadata =
        ("delivery_id", print nt.delivery_id)
        ∷ ("target_id", print nt.target_id)
        ∷ ("notification_id", print nt.notification_id)
        ∷ ("user_id", nt.target.user_id)
        ∷ ("type", "notification")
        ∷ ("notification_type", nt.notification.type_name)
        ∷ ("priority", print nt.notification.priority)
        ∷ ("trace_id", nt.notification.trace_id)
        ∷ [];
    retry = nt.delivery.attempt_count;
    max_retry = pos 3;
    timeout = pos 0;
    created_at = nt.delivery.created_at;
    scheduled_at = 0;
  }

module _ {D : Type 0} (db : Database D) (clock : D → Time) (texts : Texts)
    (channels : StringMap (NotificationTarget → NotificationPayload → D → D × ChannelResult)) where
  open texts use {scan, unmarshal, text_of}

  abbrev pub channel_type : NotificationTarget → String
  channel_type target =
      let t = text_at "sender_type" target.payload in if str_eq t "" then "expo" else t

  abbrev pub error_message : Option SendError → String
  error_message none = ""
  error_message (some e) = text_of e

  -- What is recorded of a result. The errors of the database are only logged.
  abbrev pub record_result : ℤ → D × ChannelResult → D × Ending
  record_result id (d, r) =
      if r.success then ((mark_delivered db (clock d) id d).0, succeeded) else (
        (increment_attempt db (clock d) id (error_message r.error) d).0,
        failed (if r.retryable then "retryable error" else "non-retryable error"),
      )

  abbrev pub send_on :
      Option (NotificationTarget → NotificationPayload → D → D × ChannelResult)
      → NotificationTarget
      → NotificationPayload
      → D
      → D × Ending
  send_on none target p d = (
    (increment_attempt db (clock d) target.id "channel not found" d).0,
    failed "channel not found",
  )
  send_on (some channel) target p d = record_result target.id (channel target p d)

  unfoldable pub send_notification : NotificationTarget → NotificationPayload → D → D × Ending
  send_notification target p d =
      let d1 = (increment_attempt db (clock d) target.id "" d).0 in
      send_on (lookup (channel_type target) channels) target p d1

  abbrev pub for_target : NotificationPayload → Fallible DbError NotificationTarget → D → D × Ending
  for_target p (err e) d = (d, failed "failed to get target")
  for_target p (ok target) d = send_notification target p d

  abbrev pub unless_done : NotificationPayload → ℤ → Fallible DbError Bool → D → D × Ending
  unless_done p target_id (err e) d = (d, failed "failed to check idempotency")
  unless_done p target_id (ok true) d = (d, succeeded)
  unless_done p target_id (ok false) d = for_target p (db.first_target target_id d) d

  abbrev pub with_ids : NotificationPayload → Option ℤ → Option ℤ → D → D × Ending
  with_ids p none target_id d = (d, failed "invalid delivery_id")
  with_ids p (some id) none d = (d, failed "invalid target_id")
  with_ids p (some id) (some target_id) d = unless_done p target_id (check_idempotency db id d) d

  abbrev pub value_of : String → Task → String
  value_of key task = or_else (lookup key task.metadata) ""

  abbrev pub with_payload : Task → Fallible String NotificationPayload → D → D × Ending
  with_payload task (err e) d = (d, failed "failed to parse payload")
  with_payload task (ok p) d =
      if str_eq (value_of "delivery_id" task) ""
      then (d, failed "missing delivery_id in metadata")
      else if str_eq (value_of "target_id" task) ""
      then (d, failed "missing target_id in metadata")
      else with_ids p (scan (value_of "delivery_id" task)) (scan (value_of "target_id" task)) d

  -- `Process`, on the database alone and on the whole state.
  unfoldable pub process_delivery : Task → D → D × Ending
  process_delivery task d = with_payload task (unmarshal task.payload) d

  unfoldable pub process : Handler (App D)
  process ctx task s =
      let (d, r) = process_delivery task s.db_state in (record s { db_state = d }, r)

  -- A receive from an empty queue waits; where it stays empty, the context ends the wait.
  abbrev pub converted :
      D → InMemoryQueue × Option NotificationTask → App D × Fallible String (Option Task)
  converted d (q, none) = (record { db_state = d; queue = q }, err "context canceled")
  converted d (q, some nt) =
      (record { db_state = d; queue = q }, ok (some (convert_to_worker_task texts nt)))

  unfoldable pub fetch : App D → App D × Fallible String (Option Task)
  fetch s = converted s.db_state (receive s.queue)

  abbrev pub db_text : Option DbError → Option String
  db_text none = none
  db_text (some e) = some "failed to reset delivery status"

  abbrev pub reset_target : Time → Option ℤ → App D → App D × Option String
  reset_target now none s = (s, some "invalid target_id")
  reset_target now (some id) s =
      let (d, e) = reset_delivery_status db now id s.db_state in
      (record s { db_state = d }, db_text e)

  abbrev pub nack_known : Time → Task → Bool → Option ℤ → App D → App D × Option String
  nack_known now task again none s = (s, some "invalid delivery_id")
  nack_known now task false (some id) s = (s, none)
  nack_known now task true (some id) s =
      if str_eq (value_of "target_id" task) ""
      then (s, some "missing target_id in task metadata")
      else reset_target now (scan (value_of "target_id" task)) s

  unfoldable pub nack : Time → Task → Bool → App D → App D × Option String
  nack now task again s =
      if str_eq (value_of "delivery_id" task) ""
      then (s, some "missing delivery_id in task metadata")
      else nack_known now task again (scan (value_of "delivery_id" task)) s

  -- An `Ack` has nothing to do, since the handler has recorded the result.
  abbrev pub in_memory_provider : Provider (App D)
  in_memory_provider = record {
    fetch = fetch;
    ack = λ task s. (s, none);
    nack = nack;
    close = λ s. (s, none);
  }

  abbrev pub worker_config : ℤ → ℤ → Config
  worker_config concurrency backoff_sec = record {
    concurrency = concurrency;
    backoff_strategy = backoff_exponential;
    base_backoff = int64 (backoff_sec *ℤ pos second);
    max_backoff = pos 0;
    shutdown_timeout = pos (30 * second);
    poll_interval = pos 100000000;
    error_backoff = pos second;
  }

  unfoldable pub new_notification_worker : ℤ → ℤ → Worker (App D)
  new_notification_worker concurrency backoff_sec =
      register "notification" process (new (worker_config concurrency backoff_sec))
