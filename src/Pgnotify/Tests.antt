-- ===== src/Pgnotify/Tests.antt =====
-- Runs of a notifier on concrete inputs: a connection that always works, or never.
use my_go.Common.{
  ℕ, ◌+◌, refl, pos, String, List, [], ◌∷◌, Option, none, some, Bool, true, false, lookup, insert,
}
use my_go.Worker.{succeeded}
use my_go.Pgnotify.{Config, ConnectionProvider, Notifier, Callback, Metrics}
use my_go.Pgnotify.Settings.{default_config, validate}
use my_go.Pgnotify.Subscribing.{has_channel, add, subscribe, unsubscribe, unsubscribe_channel}
use my_go.Pgnotify.Reconnecting.{reconnect}
use my_go.Pgnotify.Attempts.{EndsWithin, reconnect-EndsWithin}
use my_go.Pgnotify.Silence.{
  Call, to_subscribe, to_unsubscribe, Silent, is_given, act, act_all, unsubscribe-Silent,
}

-- The state outside counts what the connection is asked to do.
abbrev counting : Bool → Option String → ConnectionProvider ℕ
counting connected answer = record {
  listen = λ channel n. (n + 1, none);
  unlisten = λ channel n. (n + 1, none);
  notify = λ channel payload n. (n + 1, none);
  ping = λ n. (n, none);
  is_connected = λ n. connected;
  reconnect = λ n. (n + 1, answer);
}

abbrev no_metrics : Metrics
no_metrics = record {
  total_notifications = pos 0;
  total_errors = pos 0;
  total_reconnects = pos 0;
  last_notification = 0;
  last_error = 0;
  connected_at = 0;
  is_connected = false;
}

abbrev new_notifier : Notifier ℕ
new_notifier = record {
  subscriptions = [];
  heap = λ p. none;
  fresh = 0;
  metrics = no_metrics;
  connected = false;
  world = 0;
}

abbrev twice_at_most : Config ℕ
twice_at_most = record (default_config (λ d. d)) { max_reconnect_attempts = pos 2 }

abbrev some_callback : Callback ℕ
some_callback ctx x n = (n, succeeded)

abbrev some_calls : List (Call ℕ)
some_calls =
    to_subscribe "jobs" (some some_callback)
    ∷ to_unsubscribe 0
    ∷ to_subscribe "jobs" (some some_callback)
    ∷ []

unsubscribe-Silent_example :
    Silent twice_at_most
      (counting true none)
      1
      (act_all twice_at_most
        (counting true none)
        some_calls
        (record { notifier = new_notifier; given = [] })).notifier
unfolding is_given act act_all subscribe unsubscribe unsubscribe_channel has_channel add lookup
    insert
unsubscribe-Silent_example =
    unsubscribe-Silent twice_at_most (counting true none) some_calls new_notifier 1 refl

reconnect-EndsWithin_example : EndsWithin 2 (pos 30000000000) (
    reconnect twice_at_most
      (counting false (some "down"))
      (λ n. n)
      (λ n. false)
      (λ d n. n)
      3
      new_notifier)
unfolding default_config validate
reconnect-EndsWithin_example =
    reconnect-EndsWithin twice_at_most (counting false (some "down")) (λ n. n) (λ n. false)
      (λ d n. n) 1 new_notifier refl refl
