-- ===== src/Pgnotify/Subscribing.antt =====
-- The manager of subscriptions, subscription.go, and what a notifier does with it, notifier.go.
use my_go.Common.{
  ℤ, Time, ℕ, ◌+◌, pos, ltb, ltb_ℤ, String, List, [], ◌∷◌, ◌++◌, length, Option, none, some, Bool,
  true, false, not, ◌&&◌, ◌==◌, if◌then◌else◌, Fallible, ok, err, StringMap, lookup, insert, erase,
  str_eq,
}
use my_go.Pgnotify.{
  NotifyError, channel_empty, payload_too_large, not_connected, callback_nil, publish_failed,
  subscribe_failed, unsubscribe_failed, Config, ConnectionProvider, Callback, Subscription,
  Notifier,
}

abbrev pub or_empty : Option (List ℕ) → List ℕ
or_empty none = []
or_empty (some subs) = subs

abbrev pub subs_at : String → StringMap (List ℕ) → List ℕ
subs_at channel m = or_empty (lookup channel m)

unfoldable pub has_channel : String → StringMap (List ℕ) → Bool
has_channel channel m = ltb 0 (length (subs_at channel m))

unfoldable pub count : StringMap (List ℕ) → ℕ
count [] = 0
count ((channel, subs) ∷ rest) = length subs + count rest

unfoldable pub channels : StringMap (List ℕ) → List String
channels [] = []
channels ((channel, subs) ∷ rest) = channel ∷ channels rest

-- `Clear`
abbrev pub clear : {W : Type 0} → Notifier W → Notifier W
clear n = record n { subscriptions = [] }

pub record Statistics : Type 0 where
  pub total_notifications : ℤ
  pub total_errors : ℤ
  pub total_reconnects : ℤ
  pub active_subscriptions : ℕ
  pub is_connected : Bool
  pub last_notification_at : Time
  pub last_error_at : Time
  pub connected_at : Time

-- `GetStatistics` of the notifier and of its metrics.
unfoldable pub get_statistics : {W : Type 0} → Notifier W → Statistics
get_statistics n = record {
  total_notifications = n.metrics.total_notifications;
  total_errors = n.metrics.total_errors;
  total_reconnects = n.metrics.total_reconnects;
  active_subscriptions = count n.subscriptions;
  is_connected = n.metrics.is_connected;
  last_notification_at = n.metrics.last_notification;
  last_error_at = n.metrics.last_error;
  connected_at = n.metrics.connected_at;
}

abbrev pub last_or : ℕ → List ℕ → ℕ
last_or x [] = x
last_or x (y ∷ ys) = last_or y ys

abbrev pub all_but_last : List ℕ → List ℕ
all_but_last [] = []
all_but_last (x ∷ []) = []
all_but_last (x ∷ y ∷ ys) = x ∷ all_but_last (y ∷ ys)

-- The first `sub` is overwritten by the last element, which is then cut off.
unfoldable pub remove_swapped : ℕ → List ℕ → List ℕ
remove_swapped sub [] = []
remove_swapped sub (x ∷ []) = if x == sub then [] else x ∷ []
remove_swapped sub (x ∷ y ∷ ys) =
    let rest = remove_swapped sub (y ∷ ys) in
    if x == sub then last_or y ys ∷ all_but_last (y ∷ ys) else x ∷ rest

abbrev pub stored : String → List ℕ → StringMap (List ℕ) → StringMap (List ℕ)
stored channel [] m = erase channel m
stored channel (x ∷ xs) m = insert channel (x ∷ xs) m

unfoldable pub remove : String → ℕ → StringMap (List ℕ) → StringMap (List ℕ)
remove channel sub m = stored channel (remove_swapped sub (subs_at channel m)) m

abbrev pub set_at : {A : Type 0} → ℕ → A → (ℕ → Option A) → ℕ → Option A
set_at at a heap n = if n == at then some a else heap n

unfoldable pub add : {W : Type 0} → String → Callback W → Notifier W → Notifier W × ℕ
add channel callback n = (
  record n {
    subscriptions =
        insert channel (subs_at channel n.subscriptions ++ (n.fresh ∷ [])) n.subscriptions;
    heap = set_at n.fresh (record { channel = channel; callback = callback; active = true }) n.heap;
    fresh = n.fresh + 1;
  },
  n.fresh,
)

abbrev pub hook : {A W : Type 0} → Option (A → W → W) → A → W → W
hook none a w = w
hook (some f) a w = f a w

module _ {W : Type 0} (config : Config W) (provider : ConnectionProvider W) where
  open provider use {listen, unlisten, notify, is_connected}
  open config use {hooks, max_payload_size}

  abbrev pub published : String → W × Option String → W × Option NotifyError
  published channel (w, none) = (w, none)
  published channel (w, some e) = (w, some (publish_failed channel e))

  -- `size` measures a text in bytes.
  unfoldable pub publish : (String → ℕ) → String → String → W → W × Option NotifyError
  publish size channel payload w =
      if str_eq channel ""
      then (w, some channel_empty)
      else if ltb_ℤ max_payload_size (pos (size payload))
      then (w, some payload_too_large)
      else if not (is_connected w)
      then (w, some not_connected)
      else published channel (notify channel payload w)

  abbrev pub on_subscribed : String → Notifier W × ℕ → Notifier W × Fallible NotifyError ℕ
  on_subscribed channel (n, sub) =
      (record n { world = hook hooks.on_subscribe channel n.world }, ok sub)

  abbrev pub on_listened :
      String → Notifier W × ℕ → W × Option String → Notifier W × Fallible NotifyError ℕ
  on_listened channel (n, sub) (w, none) = on_subscribed channel (record n { world = w }, sub)
  on_listened channel (n, sub) (w, some e) = (
    record n { world = w; subscriptions = remove channel sub n.subscriptions },
    err (subscribe_failed channel e),
  )

  abbrev pub subscribe_added : String → Bool → Notifier W × ℕ → Notifier W × Fallible NotifyError ℕ
  subscribe_added channel needs_listen (n, sub) =
      if needs_listen && is_connected n.world
      then on_listened channel (n, sub) (listen channel n.world)
      else on_subscribed channel (n, sub)

  unfoldable pub subscribe :
      String → Option (Callback W) → Notifier W → Notifier W × Fallible NotifyError ℕ
  subscribe channel none n =
      if str_eq channel "" then (n, err channel_empty) else (n, err callback_nil)
  subscribe channel (some callback) n =
      if str_eq channel ""
      then (n, err channel_empty)
      else subscribe_added channel (not (has_channel channel n.subscriptions))
          (add channel callback n)

  abbrev pub on_unlistened :
      String → Notifier W → W × Option String → Notifier W × Option NotifyError
  on_unlistened channel n (w, some e) =
      (record n { world = w }, some (unsubscribe_failed channel e))
  on_unlistened channel n (w, none) =
      (record n { world = hook hooks.on_unsubscribe channel w }, none)

  -- `unsubscribe` of the notifier.
  unfoldable pub unsubscribe_channel : String → Notifier W → Notifier W × Option NotifyError
  unsubscribe_channel channel n =
      if has_channel channel n.subscriptions
      then (n, none)
      else if is_connected n.world
      then on_unlistened channel n (unlisten channel n.world)
      else on_unlistened channel n (n.world, none)

  abbrev pub unsubscribe_found :
      ℕ → Option (Subscription W) → Notifier W → Notifier W × Option NotifyError
  unsubscribe_found sub none n = (n, none)
  unsubscribe_found sub (some s) n =
      if s.active
      then unsubscribe_channel s.channel
          (record n { heap = set_at sub (record s { active = false }) n.heap })
      else (n, none)

  -- `Unsubscribe` of a subscription.
  unfoldable pub unsubscribe : ℕ → Notifier W → Notifier W × Option NotifyError
  unsubscribe sub n = unsubscribe_found sub (n.heap sub) n
