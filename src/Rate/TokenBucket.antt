-- ===== src/Rate/TokenBucket.antt =====
-- The token bucket, internal/pkg/rate/executor_token_bucket.go, over abstract floats. The readings
-- of the clock within one call are taken as one instant, `now`.
pub mod Range
pub mod Histories
use my_go.Common.{
  ℤ, pos, Time, Duration, String, [], Option, none, some, Bool, true, false, if◌then◌else◌,
  Fallible, ok, err, add_time, sub_time, unless_failed, second,
}
use my_go.Rate.Types.{FloatOps, Config, State, Storage, Result, Error, fatal, is_zero}

module _ (fl : FloatOps) where
  open fl use {Float, zero, of_int, seconds, add, sub, mul, div, min, le, floor_int, to_duration}

  -- The state that `Get` found, or a full bucket.
  abbrev pub found_or_full : Config → Time → Option (State Float) → State Float
  found_or_full cfg now (some st) = st
  found_or_full cfg now none = record {
    tokens = of_int cfg.burst;
    last_update = now;
    counter = pos 0;
    window_start = 0;
    timestamps = [];
  }

  -- What an elapsed time earns: `elapsed.Seconds() * float64(cfg.Rate) / cfg.Interval.Seconds()`
  unfoldable pub earned : Config → Duration → Float
  earned cfg elapsed = div (mul (seconds elapsed) (of_int cfg.rate)) (seconds cfg.interval)

  unfoldable pub refilled : Config → Time → State Float → Float
  refilled cfg now st =
      min (add st.tokens (earned cfg (sub_time now st.last_update))) (of_int cfg.burst)

  abbrev pub answer : Config → Time → Bool → Float → Result
  answer cfg now allowed tokens = record {
    allowed = allowed;
    limit = cfg.rate;
    remaining = floor_int tokens;
    retry_after = pos 0;
    reset_at = add_time now cfg.interval;
  }

  unfoldable pub retry_after : Config → ℤ → Float → Duration
  retry_after cfg n tokens = to_duration (
      mul (div (mul (sub (of_int n) tokens) (seconds cfg.interval)) (of_int cfg.rate))
        (of_int (pos second)))

  abbrev pub refused : Config → Time → ℤ → Float → Result
  refused cfg now n tokens = record {
    allowed = false;
    limit = cfg.rate;
    remaining = floor_int tokens;
    retry_after = retry_after cfg n tokens;
    reset_at = add_time now (retry_after cfg n tokens);
  }

  module _ {S : Type 0} (storage : Storage Float S) where
    open storage use {get, set}

    unfoldable pub consume :
        Time → String → ℤ → Config → State Float → Float → S → S × Fallible Error Result
    consume now key n cfg st tokens s =
        let left = sub tokens (of_int n) in
        let (s', e) = set now key (record st { tokens = left; last_update = now }) cfg.ttl s in
        if is_zero n
        then (s, ok (answer cfg now (le (of_int (pos 1)) tokens) tokens))
        else if le (of_int n) tokens
        then (s', unless_failed e (answer cfg now true left))
        else (s, ok (refused cfg now n tokens))

    unfoldable pub execute : Time → String → ℤ → Config → S → S × Fallible Error Result
    unfolding consume
    execute now key n cfg s =
        let (found, e) = get now key s in
        let st = found_or_full cfg now found in
        elim (fatal e) [
          | some x ↦ (s, err x)
          | none ↦ consume now key n cfg st (refilled cfg now st) s
        ]
