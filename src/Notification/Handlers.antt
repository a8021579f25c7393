-- ===== src/Notification/Handlers.antt =====
-- The handlers of requests, handler/handler.go. What Echo reads of a request, what the package auth
-- (which is not in the repository) knows of its user, and strconv are arguments.
use my_go.Common.{
  ℕ, ℤ, pos, ltb_ℤ, leb_ℤ, Time, String, List, [], ◌∷◌, Option, none, some, Bool, true, false, not,
  ◌&&◌, if◌then◌else◌, Fallible, ok, err, str_eq,
}
use my_go.Notification.{
  Notification, CreateNotificationDto, RegisterTokenDto, DeviceToken, FailedNotificationResponse,
}
use my_go.Notification.Repository.{Database}
use my_go.Notification.Service.{
  ServiceError, create_notification, get_failed_notifications, retry_notification, register_token,
}

pub data Data : Type 0 where
  no_data : Data
  created : Notification → Data
  failures : List FailedNotificationResponse → Data
  retry_requested : ℤ → Data
  registered : DeviceToken → Data

-- What `SuccessResponse` and `ErrorResponse` of pkg/server send.
pub record Response : Type 0 where
  pub code : ℤ
  pub success : Bool
  pub body : Data
  pub error : Option String
  pub message : String

abbrev pub success_response : ℤ → Data → String → Response
success_response code body message = record {
  code = code;
  success = true;
  body = body;
  error = none;
  message = message;
}

abbrev pub error_response : ℤ → Option String → String → Response
error_response code e message = record {
  code = code;
  success = false;
  body = no_data;
  error = e;
  message = message;
}

pub record User : Type 0 where
  pub user_id : ℕ
  pub role : String

-- The query and path parameters; a missing one is empty.
pub record Params : Type 0 where
  pub limit : String
  pub offset : String
  pub user_id : String
  pub id : String

-- strconv's FormatUint and Atoi, and the text of an error; what each gives is left open.
pub record Texts : Type 0 where
  pub format_uint : ℕ → String
  pub parse_int : String → Fallible String ℤ
  pub error_text : ServiceError → String

abbrev pub bad_request : ℤ
bad_request = pos 400

abbrev pub forbidden : ℤ
forbidden = pos 403

abbrev pub server_error : ℤ
server_error = pos 500

-- A number that is there, parses and passes its test, or the default.
abbrev number_or : ℤ → (ℤ → Bool) → String → Fallible String ℤ → ℤ
number_or default test given (err e) = default
number_or default test given (ok n) = if not (str_eq given "") && test n then n else default

abbrev is_empty : {A : Type 0} → List A → Bool
is_empty [] = true
is_empty (x ∷ xs) = false

module _ {S : Type 0} (texts : Texts) (db : Database S) where
  open texts use {format_uint, parse_int, error_text}

  -- A user may see the rows of the id, or is an admin; a request without a user is let through.
  abbrev pub is_forbidden : Option User → String → Bool
  is_forbidden none id = false
  is_forbidden (some u) id = not (str_eq id (format_uint u.user_id)) && not (str_eq u.role "admin")

  abbrev created_response : Fallible ServiceError Notification → Response
  created_response (err e) =
      error_response server_error (some (error_text e)) "Failed to create notification"
  created_response (ok n) =
      success_response (pos 201) (created n) "Notification created successfully"

  abbrev create_bound : Time → Time → Fallible String CreateNotificationDto → S → S × Response
  create_bound zero_time now (err e) s =
      (s, error_response bad_request (some e) "Invalid request body")
  create_bound zero_time now (ok dto) s =
      let (s', r) = create_notification db zero_time now dto s in
      if str_eq dto.type_name ""
      then (s, error_response bad_request none "Type is required")
      else if is_empty dto.targets
      then (s, error_response bad_request none "At least one target is required")
      else (s', created_response r)

  -- `CreateNotification`, on what `Bind` makes of the body.
  unfoldable pub handle_create :
      Time → Time → Fallible String CreateNotificationDto → S → S × Response
  handle_create zero_time now dto s = create_bound zero_time now dto s

  -- The id of the path, or of the user; none where there is neither.
  abbrev pub wanted_user : Option User → String → Option String
  wanted_user none id = if str_eq id "" then none else some id
  wanted_user (some u) id = if str_eq id "" then some (format_uint u.user_id) else some id

  abbrev listed_response : Fallible ServiceError (List FailedNotificationResponse) → Response
  listed_response (err e) =
      error_response server_error (some (error_text e)) "Failed to get failed notifications"
  listed_response (ok rows) =
      success_response (pos 200) (failures rows) "Failed notifications retrieved successfully"

  abbrev pub list_for : Option User → Option String → ℤ → ℤ → S → Response
  list_for user none limit offset s = error_response bad_request none "user_id is required"
  list_for user (some id) limit offset s =
      if is_forbidden user id
      then error_response forbidden none "Forbidden"
      else listed_response (get_failed_notifications db id limit offset s)

  -- `GetFailedNotifications`
  unfoldable pub handle_failed : Option User → Params → S → Response
  handle_failed user params s =
      let limit = number_or (pos 20) (λ n. ltb_ℤ (pos 0) n) params.limit (parse_int params.limit) in
      let offset =
        number_or (pos 0) (λ n. leb_ℤ (pos 0) n) params.offset (parse_int params.offset) in
      list_for user (wanted_user user params.user_id) limit offset s

  abbrev retried_response : ℤ → S × Option ServiceError → S × Response
  retried_response id (s, some e) =
      (s, error_response bad_request (some (error_text e)) "Failed to retry notification")
  retried_response id (s, none) = (
    s,
    success_response (pos 200) (retry_requested id) "Notification retry requested successfully",
  )

  abbrev retry_parsed : Time → Fallible String ℤ → S → S × Response
  retry_parsed now (err e) s = (s, error_response bad_request (some e) "Invalid notification ID")
  retry_parsed now (ok id) s = retried_response id (retry_notification db now id s)

  -- `RetryNotification`; its user only appears in the log.
  unfoldable pub handle_retry : Time → Params → S → S × Response
  handle_retry now params s = retry_parsed now (parse_int params.id) s

  abbrev registered_response : Fallible ServiceError DeviceToken → Response
  registered_response (err e) =
      error_response server_error (some (error_text e)) "Failed to register device token"
  registered_response (ok t) =
      success_response (pos 200) (registered t) "Device token registered successfully"

  -- The first check of a registration that fails.
  abbrev pub missing_field : RegisterTokenDto → Option String
  missing_field dto =
      if str_eq dto.user_id ""
      then some "user_id is required"
      else if str_eq dto.device_id ""
      then some "device_id is required"
      else if str_eq dto.push_token ""
      then some "push_token is required"
      else if str_eq dto.type_name ""
      then some "type is required (expo, fcm, apns, native)"
      else if str_eq dto.platform ""
      then some "platform is required (ios, android, web)"
      else none

  abbrev pub register_checked :
      Time → Option User → RegisterTokenDto → Option String → S → S × Response
  register_checked now user dto (some message) s = (s, error_response bad_request none message)
  register_checked now user dto none s =
      let (s', r) = register_token db now dto s in
      if is_forbidden user dto.user_id
      then (s, error_response forbidden none "Forbidden")
      else (s', registered_response r)

  abbrev register_bound : Time → Option User → Fallible String RegisterTokenDto → S → S × Response
  register_bound now user (err e) s =
      (s, error_response bad_request (some e) "Invalid request body")
  register_bound now user (ok dto) s = register_checked now user dto (missing_field dto) s

  -- `RegisterToken`
  unfoldable pub handle_register :
      Time → Option User → Fallible String RegisterTokenDto → S → S × Response
  handle_register now user dto s = register_bound now user dto s
