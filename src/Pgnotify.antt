-- ===== src/Pgnotify.antt =====
-- PostgreSQL's notifications, internal/pkg/pgnotify: its configuration, types.go and config.go, and
-- the state of a notifier, notifier.go and subscription.go. `W` is what is outside: the connection and what
-- callbacks and hooks act on. A hook's panic is swallowed, so a hook is what it does.
pub mod Settings
pub mod Subscribing
pub mod Dispatching
pub mod Reconnecting
pub mod Attempts
pub mod Channels
pub mod Silence
pub mod Pgx
mod Tests
use my_go.Common.{ℕ, ℤ, Time, Duration, String, List, Option, Bool, Fallible, StringMap}
use my_go.Worker.{Context, Ending}

pub record Notification : Type 0 where
  pub channel : String
  pub payload : String
  pub received_at : Time

pub data NotifyError : Type 0 where
  channel_empty payload_too_large not_connected callback_nil : NotifyError
  already_started already_stopped reconnect_failed : NotifyError
  invalid_config : String → NotifyError
  publish_failed : String → String → NotifyError
  subscribe_failed : String → String → NotifyError
  unsubscribe_failed : String → String → NotifyError
  callback_failed : String → Ending → NotifyError

pub record Hooks (W : Type 0) : Type 0 where
  pub on_notification : Option (Notification → W → W)
  pub on_error : Option (NotifyError → String → W → W)
  pub on_subscribe : Option (String → W → W)
  pub on_unsubscribe : Option (String → W → W)
  pub on_connect : Option (W → W)
  pub on_disconnect : Option (Option String → W → W)
  pub on_reconnect_attempt : Option (ℕ → Duration → W → W)
  pub on_reconnect_success : Option (ℕ → W → W)
  pub on_reconnect_failed : Option (ℕ → NotifyError → W → W)

-- `multiplier_below_one` and `scaled` are what the code computes with the multiplier, a float64.
-- A nil hook set is replaced by an empty one, which `hooks` is then.
pub record Config (W : Type 0) : Type 0 where
  pub reconnect_interval : Duration
  pub max_reconnect_interval : Duration
  pub max_reconnect_attempts : ℤ
  pub multiplier_below_one : Bool
  pub scaled : Duration → Duration
  pub max_payload_size : ℤ
  pub ping_interval : Duration
  pub callback_timeout : Duration
  pub buffer_size : ℤ
  pub has_logger : Bool
  pub hooks : Hooks W
  pub shutdown_timeout : Duration

pub record ConnectionProvider (W : Type 0) : Type 0 where
  pub listen : String → W → W × Option String
  pub unlisten : String → W → W × Option String
  pub notify : String → String → W → W × Option String
  pub ping : W → W × Option String
  pub is_connected : W → Bool
  pub reconnect : W → W × Option String

abbrev pub Callback : Type 0 → Type 0
Callback W = Context → Notification → W → W × Ending

pub record Subscription (W : Type 0) : Type 0 where
  pub channel : String
  pub callback : Callback W
  pub active : Bool

pub record Metrics : Type 0 where
  pub total_notifications : ℤ
  pub total_errors : ℤ
  pub total_reconnects : ℤ
  pub last_notification : Time
  pub last_error : Time
  pub connected_at : Time
  pub is_connected : Bool

-- A subscription is shared by the manager and by its holder, so the manager holds addresses in
-- `heap`, whose first free one is `fresh`.
pub record Notifier (W : Type 0) : Type 0 where
  pub subscriptions : StringMap (List ℕ)
  pub heap : ℕ → Option (Subscription W)
  pub fresh : ℕ
  pub metrics : Metrics
  pub connected : Bool
  pub world : W
