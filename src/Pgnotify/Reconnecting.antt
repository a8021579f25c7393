-- ===== src/Pgnotify/Reconnecting.antt =====
-- The supervision of the connection, notifier.go: a check, and the attempts to reconnect.
use my_go.Common.{
  ℕ, zero, suc, ◌+◌, pos, leb_ℤ, ltb_ℤ, Time, Duration, String, List, [], ◌∷◌, Option, none, some,
  Bool, true, false, ◌&&◌, if◌then◌else◌,
}
use my_go.Pgnotify.{reconnect_failed, Config, ConnectionProvider, Notifier}
use my_go.Pgnotify.Subscribing.{channels, hook}
use my_go.Pgnotify.Dispatching.{increment_reconnects, set_connected}

-- How a run of attempts ends. `unfinished` is the end of the fuel.
pub data Reconnected : Type 0 where
  cancelled unfinished : Reconnected
  gave_up_at : ℕ → Reconnected
  succeeded_at : ℕ → Reconnected

-- An attempt as it is logged: which one, and how long it waits first.
pub record Attempt : Type 0 where
  pub number : ℕ
  pub backoff : Duration

pub record Run (W : Type 0) : Type 0 where
  pub notifier : Notifier W
  pub attempts : List Attempt
  pub ending : Reconnected

-- `is_cancelled` reads the notifier's context, and `wait` lets time pass, unless the context ends.
module _ {W : Type 0} (config : Config W) (provider : ConnectionProvider W) (clock : W → Time)
    (is_cancelled : W → Bool) (wait : Duration → W → W) where
  open config use {
    hooks, reconnect_interval, max_reconnect_interval, max_reconnect_attempts, scaled,
  }

  unfoldable pub reregister_listeners : List String → W → W
  reregister_listeners [] w = w
  reregister_listeners (channel ∷ rest) w = reregister_listeners rest (provider.listen channel w).0

  abbrev pub next_backoff : Duration → Duration
  next_backoff backoff =
      if ltb_ℤ max_reconnect_interval (scaled backoff)
      then max_reconnect_interval
      else scaled backoff

  abbrev pub told_attempt : ℕ → Duration → W → W
  told_attempt attempt backoff w = elim hooks.on_reconnect_attempt [
    | none ↦ w
    | some f ↦ f attempt backoff w
  ]

  abbrev pub told_failed : ℕ → W → W
  told_failed attempt w = elim hooks.on_reconnect_failed [
    | none ↦ w
    | some f ↦ f attempt reconnect_failed w
  ]

  abbrev pub told_connect : W → W
  told_connect w = elim hooks.on_connect [ none ↦ w | some f ↦ f w ]

  abbrev pub on_reconnected : ℕ → Notifier W → W → Notifier W
  on_reconnected attempt n w =
      let told = hook hooks.on_reconnect_success attempt (told_connect w) in
      record n {
        connected = true;
        metrics = set_connected (clock w) true n.metrics;
        world = reregister_listeners (channels n.subscriptions) told;
      }

  abbrev pub add_attempt : ℕ → Duration → Run W → Run W
  add_attempt attempt backoff r = record r {
    attempts = record { number = attempt; backoff = backoff } ∷ r.attempts;
  }

  abbrev pub exhausted : ℕ → Bool
  exhausted attempt =
      ltb_ℤ (pos 0) max_reconnect_attempts && leb_ℤ max_reconnect_attempts (pos attempt)

  abbrev pub ends : Notifier W → Reconnected → Run W
  ends n e = record { notifier = n; attempts = []; ending = e }

  -- What the connection says to an attempt; `again` is the rest of the loop.
  abbrev pub on_tried : ℕ → Notifier W → W × Option String → Run W → Run W
  on_tried attempt n (w, none) again = ends (on_reconnected attempt n w) (succeeded_at attempt)
  on_tried attempt n (w, some e) again = again

  -- One round of the loop, after `attempt` attempts; `again` is the rest of it, should this one fail.
  abbrev pub round : ℕ → Duration → Notifier W → Run W → Run W
  round attempt backoff n again =
      let waited = wait backoff (told_attempt (attempt + 1) backoff n.world) in
      if is_cancelled n.world
      then ends n cancelled
      else if exhausted attempt
      then ends (record n { world = told_failed attempt n.world }) (gave_up_at attempt)
      else add_attempt (attempt + 1) backoff (
          if is_cancelled waited
          then ends (record n { world = waited }) cancelled
          else on_tried (attempt + 1) n (provider.reconnect waited) again)

  -- The notifier after an attempt that failed.
  abbrev pub after_failure : ℕ → Duration → Notifier W → Notifier W
  after_failure attempt backoff n = record n {
    world = (provider.reconnect (wait backoff (told_attempt (attempt + 1) backoff n.world))).0;
    metrics = increment_reconnects n.metrics;
  }

  unfoldable pub reconnect_from : ℕ → ℕ → Duration → Notifier W → Run W
  reconnect_from zero attempt backoff n = ends n unfinished
  reconnect_from (suc fuel) attempt backoff n =
      round attempt backoff n
        (reconnect_from fuel (attempt + 1) (next_backoff backoff) (after_failure attempt backoff n))

  unfoldable pub reconnect : ℕ → Notifier W → Run W
  reconnect fuel n = reconnect_from fuel 0 reconnect_interval n

  unfoldable pub handle_disconnection : Option String → Notifier W → Notifier W
  handle_disconnection e n =
      if n.connected
      then record n {
        connected = false;
        metrics = set_connected (clock n.world) false n.metrics;
        world = hook hooks.on_disconnect e n.world;
      }
      else n

  abbrev pub lost : ℕ → Option String → Notifier W → Notifier W
  lost fuel e n = (reconnect fuel (handle_disconnection e n)).notifier

  abbrev pub on_pinged : ℕ → Notifier W → W × Option String → Notifier W
  on_pinged fuel n (w, none) = record n { world = w }
  on_pinged fuel n (w, some e) = lost fuel (some e) (record n { world = w })

  unfoldable pub check_connection : ℕ → Notifier W → Notifier W
  check_connection fuel n =
      if provider.is_connected n.world
      then on_pinged fuel n (provider.ping n.world)
      else lost fuel none n
