-- ===== src/Notification.antt =====
-- The notification service, internal/service/notification: the data of model/model.go. A pointer to
-- a row that is there is the row; a payload's values are texts, numbers or anything else.
pub mod Queue
pub mod Repository
pub mod Channels
pub mod Delivering
pub mod Poller
pub mod Service
pub mod Handlers
pub mod Access
pub mod Fifo
pub mod Polling
pub mod Rows
pub mod Pipeline
pub mod Tests
mod AccessTests
use my_go.Common.{
  ℕ, ℤ, ◌≡◌, Time, String, List, Option, none, some, Bool, true, false, ◌&&◌, leb_ℤ, StringMap,
}

pub data JsonValue : Type 0 where
  json_text : String → JsonValue
  json_number : ℤ → JsonValue  -- its integer part
  json_other : String → JsonValue  -- as `%v` prints it

abbrev pub Payload : Type 0
Payload = StringMap JsonValue

pub record Notification : Type 0 where
  pub id : ℤ
  pub type_name : String
  pub target_type : String
  pub priority : ℤ
  pub trace_id : String
  pub created_at : Time
  pub updated_at : Time

pub record NotificationTarget : Type 0 where
  pub id : ℤ
  pub notification_id : ℤ
  pub user_id : String
  pub payload : Payload
  pub created_at : Time
  pub updated_at : Time

pub data DeliveryStatus : Type 0 where
  delivery_pending delivery_processing delivery_delivered delivery_failed : DeliveryStatus

pub record NotificationDelivery : Type 0 where
  pub id : ℤ
  pub target_id : ℤ
  pub status : DeliveryStatus
  pub attempt_count : ℤ
  pub retry_count : ℤ
  pub last_error : String
  pub created_at : Time
  pub updated_at : Time
  pub delivered_at : Option Time
  pub failed_at : Option Time

-- `PendingNotification` and `NotificationTask` have the same fields.
pub record NotificationTask : Type 0 where
  pub delivery_id : ℤ
  pub delivery : NotificationDelivery
  pub target_id : ℤ
  pub target : NotificationTarget
  pub notification_id : ℤ
  pub notification : Notification

pub record NotificationPayload : Type 0 where
  pub id : String
  pub user_id : String
  pub type_name : String
  pub content : Payload
  pub priority : ℤ
  pub created_at : Time
  pub trace_id : String

pub record DeviceToken : Type 0 where
  pub id : ℤ
  pub user_id : String
  pub device_id : String
  pub push_token : String
  pub type_name : String
  pub platform : String
  pub last_seen_at : Time
  pub created_at : Time
  pub updated_at : Time

pub record FailedNotificationResponse : Type 0 where
  pub id : ℤ
  pub notification_id : ℤ
  pub user_id : String
  pub type_name : String
  pub payload : Payload
  pub status : DeliveryStatus
  pub attempt_count : ℤ
  pub retry_count : ℤ
  pub last_error : String
  pub created_at : Time
  pub failed_at : Option Time

pub record NotificationTargetDto : Type 0 where
  pub user_id : String
  pub payload : Payload

pub record CreateNotificationDto : Type 0 where
  pub type_name : String
  pub target_type : String
  pub priority : ℤ
  pub trace_id : String
  pub targets : List NotificationTargetDto

pub record RegisterTokenDto : Type 0 where
  pub user_id : String
  pub device_id : String
  pub push_token : String
  pub type_name : String
  pub platform : String

-- `==` on numbers and on statuses.
abbrev pub eq_ℤ : ℤ → ℤ → Bool
eq_ℤ a b = leb_ℤ a b && leb_ℤ b a

abbrev pub eq_status : DeliveryStatus → DeliveryStatus → Bool
eq_status delivery_pending delivery_pending = true
eq_status delivery_processing delivery_processing = true
eq_status delivery_delivered delivery_delivered = true
eq_status delivery_failed delivery_failed = true
eq_status _ _ = false

abbrev pub is_there : {A : Type 0} → Option A → Bool
is_there none = false
is_there (some a) = true
