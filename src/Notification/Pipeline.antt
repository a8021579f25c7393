-- ===== src/Notification/Pipeline.antt =====
-- The way of a task through the provider, the task worker and the notification worker, as far as the
-- row of its delivery shows it.
use my_go.Common.{
  suc, ◌≡◌, refl, ap, ◌∙◌, ℤ, pos, ◌+ℤ◌, ltb_ℤ, int64, Time, Option, some, Bool, true, false,
  Bool-cases, inl, inr, if◌then◌else◌, ok, StringMap, lt→ltb, lookup, insert, arith, subst,
}
use my_go.Worker.{Task, Context}
use my_go.Worker.Tasks.{should_retry, is_expired, increment_retry}
use my_go.Worker.Processing.{Worker, new, register, process_task, handle_task_error, on_ending}
use my_go.Worker.Middlewares.{chain}
use my_go.Notification.{
  NotificationTarget, NotificationDelivery, NotificationTask, NotificationPayload, DeliveryStatus,
  delivery_pending, delivery_delivered, delivery_failed,
}
use my_go.Notification.Repository.{
  Database, attempted, increment_attempt, mark_delivered, reset_delivery_status, check_idempotency,
  is_done,
}
use my_go.Notification.Channels.{ChannelResult, SendError}
use my_go.Notification.Delivering.{
  App, Texts, payload_of, process_delivery, send_notification, record_result, process,
  convert_to_worker_task, in_memory_provider, new_notification_worker, nack, channel_type,
}
use my_go.Notification.Rows.{
  TableLaws, TaskReadsBack, Row, Row-increment_attempt, Row-mark_delivered,
  Row-reset_delivery_status,
}

abbrev pub Sender : Type 0 → Type 0
Sender D = NotificationTarget → NotificationPayload → D → D × ChannelResult

-- The status of a delivery after a send, and how often it was counted as attempted.
abbrev pub status_after : Bool → Bool → DeliveryStatus
status_after true again = delivery_delivered
status_after false true = delivery_pending
status_after false false = delivery_failed

abbrev pub attempts_after : Bool → ℤ → ℤ
attempts_after true n = int64 (n +ℤ pos 1)
attempts_after false n = int64 (int64 (n +ℤ pos 1) +ℤ pos 1)

abbrev pub EndsAs : DeliveryStatus → ℤ → Option NotificationDelivery → Type 0
EndsAs st n o = (r : NotificationDelivery) × (o ≡ some r) × (r.status ≡ st) × (r.attempt_count ≡ n)

module _ {D : Type 0} (db : Database D) (table : TableLaws db) (clock : D → Time) (texts : Texts)
    (channels : StringMap (Sender D)) (concurrency backoff : ℤ) (nt : NotificationTask)
    (back : TaskReadsBack texts nt) where
  open back use {
    delivery_id_some, target_id_some, scan_delivery_id, scan_target_id, unmarshal-marshal,
    text_some,
  }

  abbrev pub task : Task
  task = convert_to_worker_task texts nt

  abbrev pub worker : Worker (App D)
  worker = new_notification_worker db clock texts channels concurrency backoff

  -- The task worker on the task.
  abbrev pub delivered : Context → App D → App D × Bool
  delivered ctx s =
      process_task (in_memory_provider db clock texts channels) (λ s. clock s.db_state) worker ctx
        task s

  delivered-process :
      (ctx : Context) (s : App D)
      → delivered ctx s
        ≡ on_ending
            (in_memory_provider db clock texts channels)
            (λ s. clock s.db_state)
            worker
            task
            (process db clock texts channels ctx task s)
  unfolding process_task new_notification_worker register new convert_to_worker_task is_expired
      insert lookup chain
  delivered-process ctx s = refl

  process_delivery-send :
      (target : NotificationTarget) (d : D)
      → check_idempotency db nt.delivery_id d ≡ ok false
      → db.first_target nt.target_id d ≡ ok target
      → process_delivery db clock texts channels task d
        ≡ send_notification db clock texts channels target (payload_of texts nt) d
  unfolding process_delivery convert_to_worker_task lookup
  process_delivery-send target d fresh found =
      rw (process_delivery, unmarshal-marshal)
        (rw delivery_id_some
          (rw target_id_some (rw scan_delivery_id (rw scan_target_id (rw fresh (rw found refl))))))

  -- The database after a failed task went back to the provider.
  abbrev given_back : D → D
  given_back d =
      if should_retry task then (reset_delivery_status db (clock d) nt.target_id d).0 else d

  handle_task_error-given_back :
      (s : App D)
      → (handle_task_error
          (in_memory_provider db clock texts channels)
          (λ s. clock s.db_state)
          worker
          task
          s).db_state
        ≡ given_back s.db_state
  unfolding handle_task_error nack convert_to_worker_task increment_retry lookup
  handle_task_error-given_back s = elim (Bool-cases (should_retry task)) [
    | inl e ↦
        rw (handle_task_error, e)
          (rw delivery_id_some (rw scan_delivery_id (rw target_id_some (rw scan_target_id refl))))
    | inr e ↦ rw (handle_task_error, e) (rw delivery_id_some (rw scan_delivery_id refl))
  ]

  module _ (target : NotificationTarget) (channel : Sender D) (s : App D) (r : NotificationDelivery)
      (fresh : check_idempotency db nt.delivery_id s.db_state ≡ ok false)
      (found : db.first_target nt.target_id s.db_state ≡ ok target)
      (same : target.id ≡ nt.target_id)
      (registered : lookup (channel_type db clock texts channels target) channels ≡ some channel)
      (row : Row db table nt.target_id s.db_state r)
      (quiet : (p : NotificationPayload) (d : D)
        → table.delivery_of nt.target_id (channel target p d).0 ≡ table.delivery_of nt.target_id d)
      (explained : (p : NotificationPayload) (d : D)
        → (channel target p d).1.success ≡ false
        → (e : SendError) × ((channel target p d).1.error ≡ some e))
      (ctx : Context) where
    -- What the channel is called with, and what it leaves and gives.
    abbrev pub counted_once : D
    counted_once = (increment_attempt db (clock s.db_state) target.id "" s.db_state).0

    abbrev pub sent : D × ChannelResult
    sent = channel target (payload_of texts nt) counted_once

    process_delivery-sent :
        process_delivery db clock texts channels task s.db_state
        ≡ record_result db clock texts channels target.id sent
    unfolding send_notification
    process_delivery-sent =
        process_delivery-send target s.db_state fresh found
        ∙ rw (send_notification, registered) refl

    Row-sent : Row db table nt.target_id sent.0 (attempted db (clock s.db_state) "" r)
    Row-sent =
        quiet (payload_of texts nt) counted_once
        ∙ rw same
            (Row-increment_attempt db table (clock s.db_state) nt.target_id "" s.db_state r row)

    delivered-sent :
        delivered ctx s
        ≡ on_ending
            (in_memory_provider db clock texts channels)
            (λ s. clock s.db_state)
            worker
            task
            (
              record s { db_state = (record_result db clock texts channels target.id sent).0 },
              (record_result db clock texts channels target.id sent).1,
            )
    unfolding process
    delivered-sent = delivered-process ctx s ∙ rw process_delivery-sent refl

    delivered-success :
        sent.1.success ≡ true
        → delivered ctx s ≡ (
          record s { db_state = (mark_delivered db (clock sent.0) nt.target_id sent.0).0 },
          false,
        )
    delivered-success e = delivered-sent ∙ rw e (rw same refl)

    delivered-failure :
        (e : SendError)
        → sent.1.success ≡ false
        → sent.1.error ≡ some e
        → (delivered ctx s).0.db_state
          ≡ given_back (increment_attempt db (clock sent.0) nt.target_id (texts.text_of e) sent.0).0
    delivered-failure e f g =
        ap (λ p. p.0.db_state) delivered-sent
        ∙ rw f (rw g (rw same (handle_task_error-given_back _)))

    abbrev row_delivered : NotificationDelivery
    row_delivered = record (attempted db (clock s.db_state) "" r) {
      status = delivery_delivered;
      delivered_at = some (clock sent.0);
      updated_at = clock sent.0;
    }

    Row-delivered :
        sent.1.success ≡ true → Row db table nt.target_id (delivered ctx s).0.db_state row_delivered
    Row-delivered e =
        rw (delivered-success e)
          (Row-mark_delivered db table (clock sent.0) nt.target_id sent.0 _ Row-sent)

    attempted-failed :
        (now : Time) (e : SendError) (q : NotificationDelivery)
        → ((attempted db now (texts.text_of e) q).status ≡ delivery_failed)
          × ((attempted db now (texts.text_of e) q).attempt_count
              ≡ int64 (q.attempt_count +ℤ pos 1))
    attempted-failed now e q = rw (text_some e) (refl, refl)

    EndsAs-given_back :
        (d : D) (q : NotificationDelivery)
        → Row db table nt.target_id d q
        → q.status ≡ delivery_failed
        → EndsAs
            (status_after false (ltb_ℤ nt.delivery.attempt_count (pos 3)))
            q.attempt_count
            (table.delivery_of nt.target_id (given_back d))
    unfolding should_retry convert_to_worker_task
    EndsAs-given_back d q h f = elim (Bool-cases (ltb_ℤ nt.delivery.attempt_count (pos 3))) [
      | inl e ↦
          rw e (_, Row-reset_delivery_status db table (clock d) nt.target_id d q h, refl, refl)
      | inr e ↦ rw e (q, h, f, refl)
    ]

    EndsAs-failure :
        sent.1.success ≡ false
        → EndsAs
            (status_after false (ltb_ℤ nt.delivery.attempt_count (pos 3)))
            (attempts_after false r.attempt_count)
            (table.delivery_of nt.target_id (delivered ctx s).0.db_state)
    EndsAs-failure f =
        let (e, g) = explained (payload_of texts nt) counted_once f in
        let kept =
          Row-increment_attempt db table (clock sent.0) nt.target_id (texts.text_of e) sent.0 _
            Row-sent in
        let (st, ct) = attempted-failed (clock sent.0) e (attempted db (clock s.db_state) "" r) in
        rw (delivered-failure e f g) (
          subst
            (λ n. EndsAs (status_after false (ltb_ℤ nt.delivery.attempt_count (pos 3))) n (
              table.delivery_of nt.target_id (
                given_back
                  (increment_attempt db (clock sent.0) nt.target_id (texts.text_of e) sent.0).0)))
            ct (EndsAs-given_back _ _ kept st))

    -- A task from the queue reaches the worker while its delivery is not done; its target is in the
    -- database and its channel is registered; the channel leaves the row of the delivery alone and
    -- explains each failure; the database works, and numbers and payloads read back. After the
    -- worker has dealt with the task, the row is delivered where the channel succeeded, with one
    -- attempt more. Otherwise it is pending again if the task came with fewer than three attempts, and
    -- failed if not, with two attempts more.
    pub delivered-EndsAs :
        EndsAs
          (status_after sent.1.success (ltb_ℤ nt.delivery.attempt_count (pos 3)))
          (attempts_after sent.1.success r.attempt_count)
          (table.delivery_of nt.target_id (delivered ctx s).0.db_state)
    delivered-EndsAs = elim (Bool-cases sent.1.success) [
      | inl e ↦ rw e (row_delivered, Row-delivered e, refl, refl)
      | inr e ↦ rw e (EndsAs-failure e)
    ]

    check_idempotency-delivered :
        r.id ≡ nt.delivery_id
        → sent.1.success ≡ true
        → check_idempotency db nt.delivery_id (delivered ctx s).0.db_state ≡ ok true
    unfolding check_idempotency
    check_idempotency-delivered i e =
        let (n, h) =
          table.counted nt.target_id (delivered ctx s).0.db_state row_delivered
            (is_done db nt.delivery_id) (Row-delivered e) (ground (arith, i)) in
        rw (check_idempotency, h) (ap ok (lt→ltb 0 (suc n) (omega arith)))

    -- Under the same conditions, with the row of the task's delivery: once the channel has succeeded,
    -- the same task delivered again changes nothing, so nothing is sent twice.
    pub delivered-delivered :
        (ctx' : Context)
        → r.id ≡ nt.delivery_id
        → sent.1.success ≡ true
        → delivered ctx' (delivered ctx s).0 ≡ ((delivered ctx s).0, false)
    unfolding process process_delivery convert_to_worker_task lookup
    delivered-delivered ctx' i e =
        delivered-process ctx' (delivered ctx s).0
        ∙ rw unmarshal-marshal (
            rw delivery_id_some (
              rw target_id_some (
                rw scan_delivery_id
                  (rw scan_target_id (rw (check_idempotency-delivered i e) refl)))))
