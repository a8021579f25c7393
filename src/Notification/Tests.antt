-- ===== src/Notification/Tests.antt =====
-- Runs of the notification service on concrete inputs: a database that has one delivery, and a
-- channel that always succeeds.
use my_go.Common.{
  ℕ, suc, ◌≡◌, refl, ℤ, pos, List, [], ◌∷◌, Option, none, some, Bool, true, false, if◌then◌else◌,
  ok, err, arith, subst, sym, ap, str_eq, StringMap, eq_of_parts, int64, ◌+ℤ◌, lookup,
}
use my_go.Worker.{Context}
use my_go.Notification.{
  NotificationTarget, NotificationDelivery, NotificationTask, NotificationPayload,
  delivery_processing, delivery_delivered, eq_ℤ,
}
use my_go.Notification.Queue.{new_in_memory_queue}
use my_go.Notification.Fifo.{
  QueueCall, put, take_counted, take_from_channel, calls, empty_log, IsFifo, calls-IsFifo,
}
use my_go.Notification.Repository.{Database, record_not_found, check_idempotency}
use my_go.Notification.Delivering.{App, Texts}
use my_go.Notification.Poller.{
  NotificationPoller, stop, enqueue_all, start, closed_once, closed_twice,
}
use my_go.Notification.Rows.{TableLaws, TaskReadsBack}
use my_go.Notification.Polling.{SplitsAt, enqueue_all-splits, stop-restarted}
use my_go.Notification.Pipeline.{Sender, EndsAs, delivered, delivered-EndsAs, delivered-delivered}

abbrev row_if : Bool → NotificationDelivery → Option NotificationDelivery
row_if true r = some r
row_if false r = none

abbrev set_if :
    Bool
    → (NotificationDelivery → NotificationDelivery)
    → NotificationDelivery
    → NotificationDelivery
set_if true set r = set r
set_if false set r = r

abbrev one_if : Bool → ℕ
one_if true = 1
one_if false = 0

abbrev some_target : NotificationTarget
some_target = record {
  id = pos 8;
  notification_id = pos 9;
  user_id = "u";
  payload = [];
  created_at = 0;
  updated_at = 0;
}

-- The state of the database is its row.
abbrev pub one_row : Database NotificationDelivery
one_row = record {
  transaction = λ f d. f d;
  create_notification = λ n d. (d, ok n);
  create_target = λ t d. (d, ok t);
  create_delivery = λ r d. (d, none);
  first_notification = λ id d. err record_not_found;
  first_target = λ id d. ok some_target;
  targets_of = λ id d. ok [];
  first_delivery = λ cond d. ok d;
  update_deliveries = λ cond set d. (set_if (cond d) set d, none);
  count_deliveries = λ cond d. ok (one_if (cond d));
  pending_rows = λ n d. ok [];
  failed_rows = λ user a b d. ok [];
  first_token = λ user device d. err record_not_found;
  save_token = λ t d. (d, none);
  create_token = λ t d. (d, ok t);
  tokens_of = λ user d. ok [];
  delete_tokens = λ user device d. (d, ok 0);
}

row_if-some : (b : Bool) (d r : NotificationDelivery) → row_if b d ≡ some r → (b ≡ true) × (d ≡ r)
row_if-some true d r h = (refl, cc)
row_if-some false d r h = cc

eq_ℤ-sound : (a b : ℤ) → eq_ℤ a b ≡ true → a ≡ b
eq_ℤ-sound a b h = eq_of_parts a b (ground arith)

set_if-updated :
    (id : ℤ) (d : NotificationDelivery) (b : Bool)
    (set : NotificationDelivery → NotificationDelivery)
    → ((q : NotificationDelivery) → (set q).target_id ≡ q.target_id)
    → eq_ℤ d.target_id id ≡ true
    → b ≡ true
    → row_if (eq_ℤ (set_if b set d).target_id id) (set_if b set d) ≡ some (set d)
set_if-updated id d b set kept h e = rw e (rw (kept d) (rw h refl))

one_if-suc : (b : Bool) → b ≡ true → (n : ℕ) × (one_if b ≡ suc n)
one_if-suc b e = rw e (0, refl)

one_row-TableLaws : TableLaws one_row
one_row-TableLaws = record {
  delivery_of = λ id d. row_if (eq_ℤ d.target_id id) d;
  delivery_of_target = λ id d r h.
      let (b, e) = row_if-some (eq_ℤ d.target_id id) d r h in
      eq_ℤ-sound r.target_id id (subst (λ q. eq_ℤ q.target_id id ≡ true) e b);
  delivery_of_updated = λ id d r cond set kept h c.
      let (b, e) = row_if-some (eq_ℤ d.target_id id) d r h in
      subst
        (λ q.
          row_if (eq_ℤ (set_if (cond d) set d).target_id id) (set_if (cond d) set d) ≡ some (set q))
        e (set_if-updated id d (cond d) set kept b (subst (λ q. cond q ≡ true) (sym e) c));
  counted = λ id d r cond h c.
      let (b, e) = row_if-some (eq_ℤ d.target_id id) d r h in
      let (n, o) = one_if-suc (cond d) (subst (λ q. cond q ≡ true) (sym e) c) in (n, ap ok o);
}

abbrev pub some_delivery : NotificationDelivery
some_delivery = record {
  id = pos 7;
  target_id = pos 8;
  status = delivery_processing;
  attempt_count = pos 1;
  retry_count = pos 0;
  last_error = "";
  created_at = 0;
  updated_at = 0;
  delivered_at = none;
  failed_at = none;
}

abbrev some_task : NotificationTask
some_task = record {
  delivery_id = pos 7;
  delivery = some_delivery;
  target_id = pos 8;
  target = some_target;
  notification_id = pos 9;
  notification = record {
    id = pos 9;
    type_name = "news";
    target_type = "user";
    priority = pos 1;
    trace_id = "t";
    created_at = 0;
    updated_at = 0;
  };
}

abbrev some_payload : NotificationPayload
some_payload = record {
  id = "8";
  user_id = "u";
  type_name = "news";
  content = [];
  priority = pos 1;
  created_at = 0;
  trace_id = "t";
}

-- Enough of printing for the numbers of the task.
abbrev some_texts : Texts
some_texts = record {
  print = λ z. if eq_ℤ z (pos 7) then "7" else "8";
  scan = λ t. if str_eq t "7" then some (pos 7) else some (pos 8);
  marshal = λ p. [];
  unmarshal = λ b. ok some_payload;
  text_of = λ e. "not sent";
}

some_task-TaskReadsBack : TaskReadsBack some_texts some_task
some_task-TaskReadsBack = record {
  delivery_id_some = refl;
  target_id_some = refl;
  scan_delivery_id = refl;
  scan_target_id = refl;
  unmarshal-marshal = refl;
  text_some = λ e. refl;
}

abbrev always_sends : Sender NotificationDelivery
always_sends target p d = (d, record { success = true; retryable = false; error = none })

abbrev some_channels : StringMap (Sender NotificationDelivery)
some_channels = ("expo", always_sends) ∷ []

abbrev some_app : App NotificationDelivery
some_app = record { db_state = some_delivery; queue = new_in_memory_queue 2 }

abbrev some_context : Context
some_context = record { deadline = none; correlation_id = none }

abbrev after_send : App NotificationDelivery × Bool
after_send =
    delivered one_row one_row-TableLaws (λ d. 5) some_texts some_channels (pos 1) (pos 60) some_task
      some_task-TaskReadsBack some_context some_app

delivered-EndsAs_example :
    EndsAs delivery_delivered
      (int64 (pos 1 +ℤ pos 1))
      (one_row-TableLaws.delivery_of (pos 8) after_send.0.db_state)
unfolding lookup check_idempotency one_row-TableLaws
delivered-EndsAs_example =
    delivered-EndsAs one_row one_row-TableLaws (λ d. 5) some_texts some_channels (pos 1) (pos 60)
      some_task some_task-TaskReadsBack some_target always_sends some_app some_delivery refl refl
      refl refl refl (λ p d. refl) (λ p d h. cc) some_context

delivered-delivered_example :
    delivered one_row one_row-TableLaws
      (λ d. 5)
      some_texts
      some_channels
      (pos 1)
      (pos 60)
      some_task
      some_task-TaskReadsBack
      some_context
      after_send.0
    ≡ (after_send.0, false)
unfolding lookup check_idempotency one_row-TableLaws
delivered-delivered_example =
    delivered-delivered one_row one_row-TableLaws (λ d. 5) some_texts some_channels (pos 1) (pos 60)
      some_task some_task-TaskReadsBack some_target always_sends some_app some_delivery refl refl
      refl refl refl (λ p d. refl) (λ p d h. cc) some_context some_context refl refl

-- Two tasks, and room for one.
enqueue_all-splits_example :
    SplitsAt one_row 5 1
      (some_task ∷ some_task ∷ [])
      (record { db_state = some_delivery; queue = new_in_memory_queue 1 })
      (enqueue_all one_row 5
        (some_task ∷ some_task ∷ [])
        (record { db_state = some_delivery; queue = new_in_memory_queue 1 }))
unfolding new_in_memory_queue
enqueue_all-splits_example =
    enqueue_all-splits one_row 5 (some_task ∷ some_task ∷ [])
      (record { db_state = some_delivery; queue = new_in_memory_queue 1 })

abbrev some_calls : List QueueCall
some_calls = put some_task ∷ put some_task ∷ take_counted ∷ put some_task ∷ take_from_channel ∷ []

calls-IsFifo_example : IsFifo 1 (calls some_calls (empty_log 1))
calls-IsFifo_example = calls-IsFifo 1 some_calls

abbrev running_poller : NotificationPoller
running_poller = record {
  poll_interval = pos 5;
  batch_size = pos 10;
  backoff_interval = pos 30;
  running = true;
  stop_closed = false;
  empty_count = 0;
  current_interval = pos 5;
}

stop-restarted_example :
    (p1 : NotificationPoller) × (p2 : NotificationPoller) × (stop running_poller ≡ closed_once p1)
    × (start p1 ≡ ok p2)
    × (stop p2 ≡ closed_twice)
stop-restarted_example = stop-restarted running_poller refl refl
