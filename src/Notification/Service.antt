-- ===== src/Notification/Service.antt =====
-- The service that the handlers of requests call, service/service.go.
use my_go.Common.{
  ℤ, pos, leb_ℤ, ltb_ℤ, Time, String, List, map, Option, none, some, if◌then◌else◌, Fallible, ok,
  err,
}
use my_go.Notification.{
  Notification, NotificationTarget, NotificationTargetDto, NotificationDelivery,
  CreateNotificationDto, RegisterTokenDto, DeviceToken, FailedNotificationResponse, delivery_failed,
  eq_status,
}
use my_go.Notification.Repository.{
  Database, DbError, record_not_found, db_error, create, get_delivery_by_target_id,
  reset_delivery_status, register_device_token,
}

pub data ServiceError : Type 0 where
  wrapped : String → DbError → ServiceError
  refused : String → ServiceError

-- What the database fills in is empty yet.
abbrev pub new_notification : Time → CreateNotificationDto → Notification
new_notification zero_time dto = record {
  id = pos 0;
  type_name = dto.type_name;
  target_type = dto.target_type;
  priority = dto.priority;
  trace_id = dto.trace_id;
  created_at = zero_time;
  updated_at = zero_time;
}

abbrev pub new_target : Time → NotificationTargetDto → NotificationTarget
new_target zero_time dto = record {
  id = pos 0;
  notification_id = pos 0;
  user_id = dto.user_id;
  payload = dto.payload;
  created_at = zero_time;
  updated_at = zero_time;
}

abbrev pub wrap : {A : Type 0} → String → Fallible DbError A → Fallible ServiceError A
wrap text (err e) = err (wrapped text e)
wrap text (ok a) = ok a

unfoldable pub limit_from : ℤ → ℤ
limit_from limit =
    let positive = if leb_ℤ limit (pos 0) then pos 20 else limit in
    if ltb_ℤ (pos 100) positive then pos 100 else positive

module _ {S : Type 0} (db : Database S) where
  unfoldable pub create_notification :
      Time → Time → CreateNotificationDto → S → S × Fallible ServiceError Notification
  create_notification zero_time now dto s =
      let (s', r) =
        create db now (new_notification zero_time dto) (map (new_target zero_time) dto.targets) s in
      (s', wrap "failed to create notification" r)

  unfoldable pub get_failed_notifications :
      String → ℤ → ℤ → S → Fallible ServiceError (List FailedNotificationResponse)
  get_failed_notifications user limit offset s =
      wrap "failed to get failed notifications" (db.failed_rows user (limit_from limit) offset s)

  abbrev pub reset_result : S × Option DbError → S × Option ServiceError
  reset_result (s, none) = (s, none)
  reset_result (s, some e) = (s, some (wrapped "failed to reset delivery status" e))

  abbrev pub retry_delivery :
      Time → ℤ → Fallible DbError NotificationDelivery → S → S × Option ServiceError
  retry_delivery now id (err e) s = (s, some (wrapped "failed to get delivery record" e))
  retry_delivery now id (ok r) s =
      if eq_status r.status delivery_failed
      then reset_result (reset_delivery_status db now id s)
      else (s, some (refused "notification is not in failed status"))

  abbrev pub retry_target :
      Time → ℤ → Fallible DbError NotificationTarget → S → S × Option ServiceError
  retry_target now id (err record_not_found) s = (s, some (refused "notification target not found"))
  retry_target now id (err (db_error e)) s = (s, some (wrapped "failed to get target" (db_error e)))
  retry_target now id (ok target) s = retry_delivery now id (get_delivery_by_target_id db id s) s

  unfoldable pub retry_notification : Time → ℤ → S → S × Option ServiceError
  retry_notification now id s = retry_target now id (db.first_target id s) s

  abbrev pub found : Fallible DbError Notification → Fallible ServiceError Notification
  found (ok n) = ok n
  found (err record_not_found) = err (refused "notification not found")
  found (err (db_error e)) = err (wrapped "failed to get notification" (db_error e))

  unfoldable pub get_notification_by_id : ℤ → S → Fallible ServiceError Notification
  get_notification_by_id id s = found (db.first_notification id s)

  unfoldable pub register_token :
      Time → RegisterTokenDto → S → S × Fallible ServiceError DeviceToken
  register_token now dto s =
      let (s', r) = register_device_token db now dto s in
      (s', wrap "failed to register device token" r)
