-- ===== src/Rate/FixedWindow.antt =====
-- The fixed window counter, internal/pkg/rate/executor_fixed_window.go. The readings of the clock
-- within one call are taken as one instant, `now`.
pub mod Windows
pub mod Effect
pub mod Safety
pub mod Exact
use my_go.Common.{
  ℕ, ℤ, pos, ◌+ℤ◌, ◌-ℤ◌, Time, String, [], Option, none, some, Bool, true, false, leb_ℤ, ltb_ℤ,
  if◌then◌else◌, ◌==◌, Fallible, ok, err, add_time, sub_time, truncate, before, int64,
  unless_failed,
}
use my_go.Rate.Types.{
  FloatOps, Config, State, Storage, Result, Error, fatal, at_least_zero, is_zero,
}

module _ (fl : FloatOps) where
  open fl use {Float, zero}

  abbrev pub fresh : Time → State Float
  fresh window = record {
    tokens = zero;
    last_update = 0;
    counter = pos 0;
    window_start = window;
    timestamps = [];
  }

  -- The state that `Get` found, or a fresh one for a new window.
  abbrev pub current : Time → Option (State Float) → State Float
  current window none = fresh window
  current window (some st) = if before st.window_start window then fresh window else st

  abbrev pub peeked : Config → Time → ℤ → Result
  peeked cfg window counter = record {
    allowed = ltb_ℤ (pos 0) (at_least_zero (int64 (cfg.burst -ℤ counter)));
    limit = cfg.burst;
    remaining = at_least_zero (int64 (cfg.burst -ℤ counter));
    retry_after = pos 0;
    reset_at = add_time window cfg.interval;
  }

  abbrev pub granted : Config → Time → ℤ → Result
  granted cfg window counter = record {
    allowed = true;
    limit = cfg.burst;
    remaining = int64 (cfg.burst -ℤ counter);
    retry_after = pos 0;
    reset_at = add_time window cfg.interval;
  }

  abbrev pub refused : Config → Time → Time → ℤ → Result
  refused cfg now window counter = record {
    allowed = false;
    limit = cfg.burst;
    remaining = at_least_zero (int64 (cfg.burst -ℤ counter));
    retry_after = sub_time (add_time window cfg.interval) now;
    reset_at = add_time window cfg.interval;
  }

  module _ {S : Type 0} (storage : Storage Float S) where
    open storage use {get, set}

    -- The part of `Execute` that runs on the state of the current window.
    unfoldable pub consume :
        Time → String → ℤ → Config → Time → State Float → S → S × Fallible Error Result
    consume now key n cfg window st s =
        let total = int64 (st.counter +ℤ n) in
        let (s', e) = set now key (record st { counter = total }) cfg.ttl s in
        if is_zero n
        then (s, ok (peeked cfg window st.counter))
        else if leb_ℤ total cfg.burst
        then (s', unless_failed e (granted cfg window total))
        else (s, ok (refused cfg now window st.counter))

    unfoldable pub execute : Time → String → ℤ → Config → S → S × Fallible Error Result
    unfolding consume
    execute now key n cfg s =
        let window = truncate now cfg.interval in
        let (found, e) = get now key s in
        elim (fatal e) [
          | some x ↦ (s, err x)
          | none ↦ consume now key n cfg window (current window found) s
        ]
