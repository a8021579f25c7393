-- ===== src/Rate/SlidingWindow.antt =====
-- The sliding window log, internal/pkg/rate/executor_sliding_window.go. The readings of the clock
-- within one call are taken as one instant, `now`.
pub mod Stamps
pub mod Effect
pub mod Safety
pub mod Keeping
pub mod Exact
use my_go.Common.{
  ℕ, ℤ, pos, pos_part, ◌+ℤ◌, ◌-ℤ◌, Time, Duration, String, List, [], ◌∷◌, ◌++◌, Option, none, some,
  Bool, true, false, leb_ℤ, ltb_ℤ, if◌then◌else◌, Fallible, ok, err, add_time, sub_time, after,
  int64, unless_failed, length, replicate, filter_by,
}
use my_go.Rate.Types.{
  FloatOps, Config, State, Storage, Result, Error, fatal, at_least_zero, is_zero,
}

-- The timestamps after a cut, in order.
abbrev pub recent : Time → List Time → List Time
recent cut = filter_by (λ ts. after ts cut)

-- `now.Add(-cfg.Interval)`
abbrev pub window_start : Time → Config → Time
window_start now cfg = add_time now (pos 0 -ℤ cfg.interval)

module _ (fl : FloatOps) where
  open fl use {Float, zero}

  -- The state that `Get` found, or an empty log.
  abbrev pub found_or_empty : Option (State Float) → State Float
  found_or_empty (some st) = st
  found_or_empty none = record {
    tokens = zero;
    last_update = 0;
    counter = pos 0;
    window_start = 0;
    timestamps = [];
  }

  abbrev pub peeked : Config → Time → ℕ → Result
  peeked cfg now count = record {
    allowed = ltb_ℤ (pos 0) (at_least_zero (int64 (cfg.burst -ℤ pos count)));
    limit = cfg.burst;
    remaining = at_least_zero (int64 (cfg.burst -ℤ pos count));
    retry_after = pos 0;
    reset_at = add_time now cfg.interval;
  }

  abbrev pub granted : Config → Time → ℕ → Result
  granted cfg now count = record {
    allowed = true;
    limit = cfg.burst;
    remaining = int64 (cfg.burst -ℤ pos count);
    retry_after = pos 0;
    reset_at = add_time now cfg.interval;
  }

  -- How long to wait for the oldest timestamp to leave the window.
  abbrev pub retry_after : Config → Time → List Time → Duration
  retry_after cfg now [] = cfg.interval
  retry_after cfg now (oldest ∷ _) = at_least_zero (sub_time (add_time oldest cfg.interval) now)

  abbrev pub refused : Config → Time → List Time → Result
  refused cfg now stamps = record {
    allowed = false;
    limit = cfg.burst;
    remaining = at_least_zero (int64 (cfg.burst -ℤ pos (length stamps)));
    retry_after = retry_after cfg now stamps;
    reset_at = add_time now (retry_after cfg now stamps);
  }

  module _ {S : Type 0} (storage : Storage Float S) where
    open storage use {get, set}

    -- The part of `Execute` that runs on the valid timestamps. The loop that appends `now` makes no
    -- round for a negative `n`.
    unfoldable pub consume :
        Time → String → ℤ → Config → State Float → List Time → S → S × Fallible Error Result
    consume now key n cfg st valid s =
        let stamps = valid ++ replicate (pos_part n) now in
        let (s', e) = set now key (record st { timestamps = stamps }) cfg.ttl s in
        if is_zero n
        then (s, ok (peeked cfg now (length valid)))
        else if leb_ℤ (int64 (pos (length valid) +ℤ n)) cfg.burst
        then (s', unless_failed e (granted cfg now (length stamps)))
        else (s, ok (refused cfg now valid))

    unfoldable pub execute : Time → String → ℤ → Config → S → S × Fallible Error Result
    unfolding consume
    execute now key n cfg s =
        let (found, e) = get now key s in
        let st = found_or_empty found in
        elim (fatal e) [
          | some x ↦ (s, err x)
          | none ↦ consume now key n cfg st (recent (window_start now cfg) st.timestamps) s
        ]
