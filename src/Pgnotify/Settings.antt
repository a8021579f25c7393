-- ===== src/Pgnotify/Settings.antt =====
-- The configuration of a notifier, config.go.
use my_go.Common.{
  ℤ, Bool, pos, leb_ℤ, ltb_ℤ, Duration, Option, none, some, true, false, ◌||◌, not, if◌then◌else◌,
  second, ◌*◌,
}
use my_go.Pgnotify.{NotifyError, invalid_config, Hooks, Config}

abbrev pub no_hooks : {W : Type 0} → Hooks W
no_hooks = record {
  on_notification = none;
  on_error = none;
  on_subscribe = none;
  on_unsubscribe = none;
  on_connect = none;
  on_disconnect = none;
  on_reconnect_attempt = none;
  on_reconnect_success = none;
  on_reconnect_failed = none;
}

-- `twice` is the multiplication by the default multiplier, 2.0.
unfoldable pub default_config : {W : Type 0} → (Duration → Duration) → Config W
default_config twice = record {
  reconnect_interval = pos second;
  max_reconnect_interval = pos (30 * second);
  max_reconnect_attempts = pos 0;
  multiplier_below_one = false;
  scaled = twice;
  max_payload_size = pos 7900;
  ping_interval = pos (30 * second);
  callback_timeout = pos (30 * second);
  buffer_size = pos 100;
  has_logger = true;
  hooks = no_hooks;
  shutdown_timeout = pos (10 * second);
}

unfoldable pub validate : {W : Type 0} → Config W → Option NotifyError
validate c =
    if leb_ℤ c.reconnect_interval (pos 0)
    then some (invalid_config "reconnect_interval must be positive")
    else if leb_ℤ c.max_reconnect_interval (pos 0)
    then some (invalid_config "max_reconnect_interval must be positive")
    else if ltb_ℤ c.max_reconnect_interval c.reconnect_interval
    then some (invalid_config "max_reconnect_interval must be >= reconnect_interval")
    else if c.multiplier_below_one
    then some (invalid_config "reconnect_backoff_multiplier must be >= 1.0")
    else if leb_ℤ c.max_payload_size (pos 0) || ltb_ℤ (pos 8000) c.max_payload_size
    then some (invalid_config "max_payload_size must be between 1 and 8000")
    else if leb_ℤ c.ping_interval (pos 0)
    then some (invalid_config "ping_interval must be positive")
    else if leb_ℤ c.buffer_size (pos 0)
    then some (invalid_config "buffer_size must be positive")
    else if not c.has_logger
    then some (invalid_config "logger cannot be nil")
    else if leb_ℤ c.shutdown_timeout (pos 0)
    then some (invalid_config "shutdown_timeout must be positive")
    else none

-- An option of `New` sets one field. A nil hook set is the empty one.
pub data Setting (W : Type 0) : Type 0 where
  with_reconnect_interval with_max_reconnect_interval : Duration → Setting W
  with_max_reconnect_attempts with_max_payload_size with_buffer_size : ℤ → Setting W
  with_ping_interval with_callback_timeout with_shutdown_timeout : Duration → Setting W
  with_logger : Bool → Setting W
  with_hooks : Hooks W → Setting W

unfoldable pub apply_setting : {W : Type 0} → Setting W → Config W → Config W
apply_setting (with_reconnect_interval d) c = record c { reconnect_interval = d }
apply_setting (with_max_reconnect_interval d) c = record c { max_reconnect_interval = d }
apply_setting (with_max_reconnect_attempts n) c = record c { max_reconnect_attempts = n }
apply_setting (with_max_payload_size n) c = record c { max_payload_size = n }
apply_setting (with_buffer_size n) c = record c { buffer_size = n }
apply_setting (with_ping_interval d) c = record c { ping_interval = d }
apply_setting (with_callback_timeout d) c = record c { callback_timeout = d }
apply_setting (with_shutdown_timeout d) c = record c { shutdown_timeout = d }
apply_setting (with_logger there) c = record c { has_logger = there }
apply_setting (with_hooks hooks) c = record c { hooks = hooks }
