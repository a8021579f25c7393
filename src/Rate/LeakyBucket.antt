-- ===== src/Rate/LeakyBucket.antt =====
-- The leaky bucket, internal/pkg/rate/executor_leaky_bucket.go, over abstract floats. The readings
-- of the clock within one call are taken as one instant, `now`.
pub mod Range
pub mod Histories
use my_go.Common.{
  ℤ, pos, ltb_ℤ, Time, Duration, String, [], Option, none, some, Bool, true, false, if◌then◌else◌,
  Fallible, ok, err, add_time, sub_time, unless_failed, second,
}
use my_go.Rate.Types.{FloatOps, Config, State, Storage, Result, Error, fatal, is_zero}

module _ (fl : FloatOps) where
  open fl use {Float, zero, of_int, seconds, add, sub, mul, div, max, le, floor_int, to_duration}

  -- The state that `Get` found, or an empty bucket.
  abbrev pub found_or_empty : Time → Option (State Float) → State Float
  found_or_empty now (some st) = st
  found_or_empty now none = record {
    tokens = zero;
    last_update = now;
    counter = pos 0;
    window_start = 0;
    timestamps = [];
  }

  -- What leaks in an elapsed time: `elapsed.Seconds() * float64(cfg.Rate) / cfg.Interval.Seconds()`
  unfoldable pub leaked : Config → Duration → Float
  leaked cfg elapsed = div (mul (seconds elapsed) (of_int cfg.rate)) (seconds cfg.interval)

  unfoldable pub level : Config → Time → State Float → Float
  level cfg now st = max zero (sub st.tokens (leaked cfg (sub_time now st.last_update)))

  -- `int(math.Floor(float64(cfg.Burst) - level))`
  unfoldable pub room : Config → Float → ℤ
  room cfg lv = floor_int (sub (of_int cfg.burst) lv)

  abbrev pub answer : Config → Time → Bool → Float → Result
  answer cfg now allowed lv = record {
    allowed = allowed;
    limit = cfg.rate;
    remaining = room cfg lv;
    retry_after = pos 0;
    reset_at = add_time now cfg.interval;
  }

  unfoldable pub retry_after : Config → ℤ → Float → Duration
  retry_after cfg n lv = to_duration (
      mul
        (div (mul (sub (add lv (of_int n)) (of_int cfg.burst)) (seconds cfg.interval))
          (of_int cfg.rate))
        (of_int (pos second)))

  abbrev pub refused : Config → Time → ℤ → Float → Result
  refused cfg now n lv = record {
    allowed = false;
    limit = cfg.rate;
    remaining = room cfg lv;
    retry_after = retry_after cfg n lv;
    reset_at = add_time now (retry_after cfg n lv);
  }

  module _ {S : Type 0} (storage : Storage Float S) where
    open storage use {get, set}

    unfoldable pub consume :
        Time → String → ℤ → Config → State Float → Float → S → S × Fallible Error Result
    consume now key n cfg st lv s =
        let raised = add lv (of_int n) in
        let (s', e) = set now key (record st { tokens = raised; last_update = now }) cfg.ttl s in
        if is_zero n
        then (s, ok (answer cfg now (ltb_ℤ (pos 0) (room cfg lv)) lv))
        else if le raised (of_int cfg.burst)
        then (s', unless_failed e (answer cfg now true raised))
        else (s, ok (refused cfg now n lv))

    unfoldable pub execute : Time → String → ℤ → Config → S → S × Fallible Error Result
    unfolding consume
    execute now key n cfg s =
        let (found, e) = get now key s in
        let st = found_or_empty now found in
        elim (fatal e) [
          | some x ↦ (s, err x)
          | none ↦ consume now key n cfg st (level cfg now st) s
        ]
