-- ===== src/Notification/Repository.antt =====
-- The repository, repository/repository.go, over the database: each method is the statement that it
-- runs, with the rows that it takes and what it sets in them.
use my_go.Common.{
  ℕ, ◌*◌, ltb, ℤ, pos, ◌+ℤ◌, int64, Time, String, List, [], ◌∷◌, Option, none, some, Bool, true,
  false, ◌&&◌, if◌then◌else◌, Fallible, ok, err, str_eq, before, add_time, ◌*ℤ◌, ◌-ℤ◌, second,
}
use my_go.Notification.{
  Notification, NotificationTarget, NotificationDelivery, NotificationTask, delivery_pending,
  delivery_processing, delivery_delivered, delivery_failed, DeviceToken, RegisterTokenDto,
  FailedNotificationResponse, eq_ℤ, eq_status, is_there,
}

pub data DbError : Type 0 where
  record_not_found : DbError
  db_error : String → DbError

-- What the code asks of the database, on states in `S`. `pending_rows` and `failed_rows` are its two
-- long queries. Creating a row gives it its key.
pub record Database (S : Type 0) : Type 0 where
  pub transaction : (S → S × Fallible DbError Notification) → S → S × Fallible DbError Notification
  pub create_notification : Notification → S → S × Fallible DbError Notification
  pub create_target : NotificationTarget → S → S × Fallible DbError NotificationTarget
  pub create_delivery : NotificationDelivery → S → S × Option DbError
  pub first_notification : ℤ → S → Fallible DbError Notification
  pub first_target : ℤ → S → Fallible DbError NotificationTarget
  pub targets_of : ℤ → S → Fallible DbError (List NotificationTarget)
  pub first_delivery : (NotificationDelivery → Bool) → S → Fallible DbError NotificationDelivery
  pub update_deliveries :
      (NotificationDelivery → Bool)
      → (NotificationDelivery → NotificationDelivery)
      → S
      → S × Option DbError
  pub count_deliveries : (NotificationDelivery → Bool) → S → Fallible DbError ℕ
  pub pending_rows : ℤ → S → Fallible DbError (List NotificationTask)
  pub failed_rows : String → ℤ → ℤ → S → Fallible DbError (List FailedNotificationResponse)
  pub first_token : String → String → S → Fallible DbError DeviceToken
  pub save_token : DeviceToken → S → S × Option DbError
  pub create_token : DeviceToken → S → S × Fallible DbError DeviceToken
  pub tokens_of : String → S → Fallible DbError (List DeviceToken)
  pub delete_tokens : String → String → S → S × Fallible DbError ℕ

abbrev pub of_target : ℤ → NotificationDelivery → Bool
of_target id r = eq_ℤ r.target_id id

module _ {S : Type 0} (db : Database S) where
  open db use {
    transaction, create_notification, create_target, create_delivery, first_notification,
    first_target, targets_of, first_delivery, update_deliveries, count_deliveries, pending_rows,
    failed_rows, first_token, save_token, create_token, tokens_of, delete_tokens,
  }

  abbrev pub fresh_delivery : Time → NotificationTarget → NotificationDelivery
  fresh_delivery now target = record {
    id = pos 0;
    target_id = target.id;
    status = delivery_pending;
    attempt_count = pos 0;
    retry_count = pos 0;
    last_error = "";
    created_at = now;
    updated_at = now;
    delivered_at = none;
    failed_at = none;
  }

  -- The loop over the targets, in the transaction; the first error ends it.
  unfoldable pub create_targets : Time → ℤ → List NotificationTarget → S → S × Option DbError
  create_targets now notification_id [] s = (s, none)
  create_targets now notification_id (target ∷ rest) s =
      let (s1, made) = create_target (record target { notification_id = notification_id }) s in
      elim made [
        | err e ↦ (s1, some e)
        | ok stored ↦
            let (s2, e) = create_delivery (fresh_delivery now stored) s1 in
            elim e [ some x ↦ (s2, some x) | none ↦ create_targets now notification_id rest s2 ]
      ]

  abbrev pub with_stored : Notification → S × Option DbError → S × Fallible DbError Notification
  with_stored stored (s, none) = (s, ok stored)
  with_stored stored (s, some e) = (s, err e)

  abbrev pub in_transaction :
      Time → Notification → List NotificationTarget → S → S × Fallible DbError Notification
  in_transaction now notif targets s =
      let (s1, made) = create_notification notif s in
      elim made [
        | err e ↦ (s1, err e)
        | ok stored ↦ with_stored stored (create_targets now stored.id targets s1)
      ]

  -- Besides the error, what is stored in the caller's notification.
  unfoldable pub create :
      Time → Notification → List NotificationTarget → S → S × Fallible DbError Notification
  create now notif targets s = transaction (in_transaction now notif targets) s

  unfoldable pub get_delivery_by_target_id : ℤ → S → Fallible DbError NotificationDelivery
  get_delivery_by_target_id id s = first_delivery (of_target id) s

  unfoldable pub mark_delivered : Time → ℤ → S → S × Option DbError
  mark_delivered now id s =
      update_deliveries (of_target id)
        (λ r. record r { status = delivery_delivered; delivered_at = some now; updated_at = now }) s

  abbrev pub attempted : Time → String → NotificationDelivery → NotificationDelivery
  attempted now message r =
      let counted = record r {
        attempt_count = int64 (r.attempt_count +ℤ pos 1);
        updated_at = now;
      } in
      if str_eq message ""
      then record counted { status = delivery_processing }
      else record counted { last_error = message; failed_at = some now; status = delivery_failed }

  unfoldable pub increment_attempt : Time → ℤ → String → S → S × Option DbError
  increment_attempt now id message s = update_deliveries (of_target id) (attempted now message) s

  unfoldable pub increment_retry : Time → ℤ → S → S × Option DbError
  increment_retry now id s =
      update_deliveries (of_target id)
        (λ r. record r {
          retry_count = int64 (r.retry_count +ℤ pos 1);
          status = delivery_pending;
          updated_at = now;
        })
        s

  unfoldable pub reset_delivery_status : Time → ℤ → S → S × Option DbError
  reset_delivery_status now id s =
      update_deliveries (of_target id)
        (λ r. record r { status = delivery_pending; updated_at = now; failed_at = none }) s

  unfoldable pub is_among : ℤ → List ℤ → Bool
  is_among id [] = false
  is_among id (x ∷ xs) = let rest = is_among id xs in if eq_ℤ id x then true else rest

  -- No statement runs for an empty list.
  unfoldable pub mark_deliveries_as_processing : Time → List ℤ → S → S × Option DbError
  mark_deliveries_as_processing now [] s = (s, none)
  mark_deliveries_as_processing now (id ∷ ids) s =
      update_deliveries (λ r. is_among r.id (id ∷ ids))
        (λ r. record r { status = delivery_processing; updated_at = now }) s

  unfoldable pub get_pending_delivery_count : S → Fallible DbError ℕ
  get_pending_delivery_count s = count_deliveries (λ r. eq_status r.status delivery_pending) s

  abbrev pub is_done : ℤ → NotificationDelivery → Bool
  is_done id r = eq_ℤ r.id id && (eq_status r.status delivery_delivered && is_there r.delivered_at)

  abbrev pub more_than_none : Fallible DbError ℕ → Fallible DbError Bool
  more_than_none (err e) = err e
  more_than_none (ok n) = ok (ltb 0 n)

  unfoldable pub check_idempotency : ℤ → S → Fallible DbError Bool
  check_idempotency id s = more_than_none (count_deliveries (is_done id) s)

  -- A time that is `minutes` ago, after the zero time.
  unfoldable pub reset_processing_to_pending : Time → ℤ → S → S × Option DbError
  reset_processing_to_pending now minutes s =
      let timeout = add_time now (int64 (int64 (pos 0 -ℤ minutes) *ℤ pos (60 * second))) in
      update_deliveries (λ r. eq_status r.status delivery_processing && before r.updated_at timeout)
        (λ r. record r { status = delivery_pending; updated_at = now }) s

  abbrev pub new_token : Time → RegisterTokenDto → DeviceToken
  new_token now dto = record {
    id = pos 0;
    user_id = dto.user_id;
    device_id = dto.device_id;
    push_token = dto.push_token;
    type_name = dto.type_name;
    platform = dto.platform;
    last_seen_at = now;
    created_at = now;
    updated_at = now;
  }

  abbrev pub saved : DeviceToken → S × Option DbError → S × Fallible DbError DeviceToken
  saved token (s, none) = (s, ok token)
  saved token (s, some e) = (s, err e)

  abbrev pub register_found :
      Time → RegisterTokenDto → Fallible DbError DeviceToken → S → S × Fallible DbError DeviceToken
  register_found now dto (ok token) s =
      let token' = record token {
        push_token = dto.push_token;
        type_name = dto.type_name;
        platform = dto.platform;
        last_seen_at = now;
        updated_at = now;
      } in
      saved token' (save_token token' s)
  register_found now dto (err record_not_found) s = create_token (new_token now dto) s
  register_found now dto (err (db_error e)) s = (s, err (db_error e))

  unfoldable pub register_device_token :
      Time → RegisterTokenDto → S → S × Fallible DbError DeviceToken
  register_device_token now dto s =
      register_found now dto (first_token dto.user_id dto.device_id s) s

  abbrev pub none_deleted : Fallible DbError ℕ → Option DbError
  none_deleted (err e) = some e
  none_deleted (ok n) = if ltb 0 n then none else some record_not_found

  unfoldable pub delete_device_token : String → String → S → S × Option DbError
  delete_device_token user device s =
      let (s', deleted) = delete_tokens user device s in (s', none_deleted deleted)
