-- ===== src/Pgnotify/Dispatching.antt =====
-- The dispatcher of notifications and the metrics, dispatcher.go. `clock` reads the time.
use my_go.Common.{
  ℕ, pos, ◌+ℤ◌, int64, ltb_ℤ, Time, String, List, [], ◌∷◌, Option, none, some, Bool, not, ◌&&◌,
  if◌then◌else◌,
}
use my_go.Worker.{Context, Ending, succeeded, failed, panicked, fatal}
use my_go.Worker.Middlewares.{with_timeout}
use my_go.Pgnotify.{Notification, callback_failed, Config, Subscription, Notifier, Metrics}
use my_go.Pgnotify.Subscribing.{subs_at, hook}

unfoldable pub increment_notifications : Time → Metrics → Metrics
increment_notifications now m = record m {
  total_notifications = int64 (m.total_notifications +ℤ pos 1);
  last_notification = now;
}

unfoldable pub increment_errors : Time → Metrics → Metrics
increment_errors now m = record m {
  total_errors = int64 (m.total_errors +ℤ pos 1);
  last_error = now;
}

unfoldable pub increment_reconnects : Metrics → Metrics
increment_reconnects m = record m { total_reconnects = int64 (m.total_reconnects +ℤ pos 1) }

unfoldable pub set_connected : Time → Bool → Metrics → Metrics
set_connected now connected m = record m {
  connected_at = if connected && not m.is_connected then now else m.connected_at;
  is_connected = connected;
}

module _ {W : Type 0} (config : Config W) (clock : W → Time) where
  open config use {hooks, callback_timeout}

  abbrev pub callback_context : Context → W → Context
  callback_context ctx w =
      if ltb_ℤ (pos 0) callback_timeout then with_timeout (clock w) callback_timeout ctx else ctx

  abbrev pub report : String → Ending → W → W
  report channel e w = elim hooks.on_error [
    | none ↦ w
    | some f ↦ f (callback_failed channel e) channel w
  ]

  -- An error and a panic of the callback are counted and reported; one in a goroutine of its own ends
  -- the process.
  abbrev pub on_invoked : String → Notifier W → W × Ending → Notifier W
  on_invoked channel n (w, succeeded) = record n { world = w }
  on_invoked channel n (w, failed e) = record n {
    world = report channel (failed e) w;
    metrics = increment_errors (clock w) n.metrics;
  }
  on_invoked channel n (w, panicked p) = record n {
    world = report channel (panicked p) w;
    metrics = increment_errors (clock w) n.metrics;
  }
  on_invoked channel n (w, fatal p) = record n { world = w }

  -- `Invoke`: a subscription that is no longer active is skipped.
  abbrev pub invoke : Context → Option (Subscription W) → Notification → W → W × Ending
  invoke ctx none x w = (w, succeeded)
  invoke ctx (some s) x w = if s.active then s.callback ctx x w else (w, succeeded)

  unfoldable pub dispatch_to_subscription : Context → Notification → ℕ → Notifier W → Notifier W
  dispatch_to_subscription ctx x sub n =
      on_invoked x.channel n (invoke (callback_context ctx n.world) (n.heap sub) x n.world)

  -- The goroutines that `Dispatch` starts run in any order; here they run in the given one.
  unfoldable pub dispatch_each : Context → Notification → List ℕ → Notifier W → Notifier W
  dispatch_each ctx x [] n = n
  dispatch_each ctx x (sub ∷ subs) n =
      dispatch_each ctx x subs (dispatch_to_subscription ctx x sub n)

  unfoldable pub dispatch : Context → Notification → Notifier W → Notifier W
  dispatch ctx x n =
      let told = record n { world = hook hooks.on_notification x n.world } in
      dispatch_each ctx x (subs_at x.channel told.subscriptions) told

  -- What the listener's loop does with a notification.
  unfoldable pub on_notification : Context → Notification → Notifier W → Notifier W
  on_notification ctx x n =
      dispatch ctx x (record n { metrics = increment_notifications (clock n.world) n.metrics })
