-- ===== src/Notification/Poller.antt =====
-- The poller, worker/poller.go: one poll of the database, and its start and stop.
use my_go.Common.{
  ℕ, ◌+◌, ltb, ℤ, pos, Time, Duration, List, [], ◌∷◌, map, Option, none, some, Bool, true, false,
  if◌then◌else◌, Fallible, ok, err, String, int64, ◌*ℤ◌, second,
}
use my_go.Notification.{NotificationTask}
use my_go.Notification.Queue.{InMemoryQueue, enqueue, is_full}
use my_go.Notification.Repository.{
  Database, DbError, mark_deliveries_as_processing, reset_delivery_status,
}
use my_go.Notification.Delivering.{App}

pub record PollerConfig : Type 0 where
  pub poll_interval_sec : ℤ
  pub batch_size : ℤ
  pub backoff_on_empty_sec : ℤ

-- `stop_closed` says whether `stopCh` has been closed. `empty_count` and `current_interval` are the
-- variables of the loop.
pub record NotificationPoller : Type 0 where
  pub poll_interval : Duration
  pub batch_size : ℤ
  pub backoff_interval : Duration
  pub running : Bool
  pub stop_closed : Bool
  pub empty_count : ℕ
  pub current_interval : Duration

unfoldable pub new_notification_poller : PollerConfig → NotificationPoller
new_notification_poller c = record {
  poll_interval = int64 (c.poll_interval_sec *ℤ pos second);
  batch_size = c.batch_size;
  backoff_interval = int64 (c.backoff_on_empty_sec *ℤ pos second);
  running = false;
  stop_closed = false;
  empty_count = 0;
  current_interval = int64 (c.poll_interval_sec *ℤ pos second);
}

-- A start begins a loop, with variables of its own.
unfoldable pub start : NotificationPoller → Fallible String NotificationPoller
start p =
    if p.running
    then err "poller is already running"
    else ok (record p { running = true; empty_count = 0; current_interval = p.poll_interval })

pub data Stopped : Type 0 where
  not_running : Stopped
  closed_once : NotificationPoller → Stopped
  closed_twice : Stopped  -- a panic

unfoldable pub stop : NotificationPoller → Stopped
stop p =
    if p.running
    then if p.stop_closed
      then closed_twice
      else closed_once (record p { running = false; stop_closed = true })
    else not_running

module _ {D : Type 0} (db : Database D) where
  abbrev pub enqueue_or_reset : Time → NotificationTask → D → InMemoryQueue × Bool → App D
  enqueue_or_reset now task d (q, true) = record { db_state = d; queue = q }
  enqueue_or_reset now task d (q, false) = record {
    db_state = (reset_delivery_status db now task.target_id d).0;
    queue = q;
  }

  -- The loop at the end of a poll.
  unfoldable pub enqueue_all : Time → List NotificationTask → App D → App D
  enqueue_all now [] s = s
  enqueue_all now (task ∷ rest) s =
      enqueue_all now rest (enqueue_or_reset now task s.db_state (enqueue task s.queue))

  abbrev pub on_empty : NotificationPoller → NotificationPoller
  on_empty p =
      let counted = record p { empty_count = p.empty_count + 1 } in
      if ltb 3 counted.empty_count
      then record counted { current_interval = p.backoff_interval }
      else counted

  abbrev pub on_found : NotificationPoller → NotificationPoller
  on_found p = record p { empty_count = 0; current_interval = p.poll_interval }

  abbrev pub on_marked : Time → List NotificationTask → InMemoryQueue → D × Option DbError → App D
  on_marked now tasks q (d, some e) = record { db_state = d; queue = q }
  on_marked now tasks q (d, none) = enqueue_all now tasks (record { db_state = d; queue = q })

  abbrev pub delivery_ids : List NotificationTask → List ℤ
  delivery_ids tasks = map (λ t. t.delivery_id) tasks

  abbrev pub on_pending :
      Time
      → NotificationPoller
      → Fallible DbError (List NotificationTask)
      → App D
      → NotificationPoller × App D
  on_pending now p (err e) s = (p, s)
  on_pending now p (ok []) s = (on_empty p, s)
  on_pending now p (ok (task ∷ rest)) s = (
    on_found p,
    on_marked now (task ∷ rest) s.queue
        (mark_deliveries_as_processing db now (delivery_ids (task ∷ rest)) s.db_state),
  )

  unfoldable pub perform_poll : Time → NotificationPoller → App D → NotificationPoller × App D
  perform_poll now p s =
      if is_full s.queue
      then (p, s)
      else on_pending now p (db.pending_rows p.batch_size s.db_state) s
