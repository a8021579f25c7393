-- ===== src/Rate/Tests/Windows.antt =====
-- The window strategies on short histories.
use my_go.Common.{
  ℕ, pos, ◌+◌, ◌≤◌, ◌≡◌, refl, Time, List, [], ◌∷◌, none, false, leb, truncate, lookup, insert,
  delete_if, erase, int64, ◌+ℤ◌, ◌-ℤ◌, arith,
}
use my_go.Rate.Types.{Config, validate}
use my_go.Rate.Memory.{memory_storage, get, set, empty, cleanup}
use my_go.Rate.History.{Call, Event, request, sweep, is_allowed, run, step}
use my_go.Rate.FixedWindow
use my_go.Rate.FixedWindow.Safety.{granted_in}
use my_go.Rate.FixedWindow.Exact as FixedExact
use my_go.Rate.SlidingWindow
use my_go.Rate.SlidingWindow.{window_start}
use my_go.Rate.SlidingWindow.Safety.{granted_after}
use my_go.Rate.SlidingWindow.Exact as SlidingExact
use my_go.Rate.Tests.Floats.{integer_ops}

-- Three units in a window of ten nanoseconds.
abbrev pub small_config : Config
small_config = record {
  strategy = "fixed_window";
  rate = pos 2;
  burst = pos 3;
  interval = pos 10;
  ttl = pos 20;
  fail_open = false;
}

pub small_config_valid : validate small_config ≡ none
unfolding validate
small_config_valid = refl

abbrev pub call : Time → ℕ → Call
call t n = record { at = t; key = "a"; amount = pos n }

-- Two units, one more that fits, one that does not, a sweep, and one in the next window.
abbrev pub history : List Event
history =
    request (call 100 2)
    ∷ request (call 104 1)
    ∷ request (call 107 1)
    ∷ sweep 109
    ∷ request (call 112 2)
    ∷ []

allowed_iff_fits_example :
    is_allowed
      (FixedWindow.execute integer_ops
        (memory_storage integer_ops)
        113
        "a"
        (pos 2)
        small_config
        (FixedExact.after_history integer_ops small_config history).storage).1
    ≡ leb
        (granted_in
            (pos 10)
            "a"
            (truncate 113 (pos 10))
            (FixedExact.after_history integer_ops small_config history).grants
          + 2)
        3
allowed_iff_fits_example =
    FixedExact.allowed_iff_fits integer_ops small_config small_config_valid (omega arith) history
      (call 113 2) (omega arith) (omega arith) (omega arith) (omega arith) (omega arith)

granted_after-le-burst_example :
    granted_after "a" 103 (SlidingExact.after_history integer_ops small_config history).grants ≤ 3
granted_after-le-burst_example =
    SlidingExact.granted_after-le-burst integer_ops small_config small_config_valid (omega arith)
      "a" 103 history (omega arith) (omega arith) (omega arith)

allowed_iff_fits_interval_example :
    is_allowed
      (SlidingWindow.execute integer_ops
        (memory_storage integer_ops)
        113
        "a"
        (pos 2)
        small_config
        (SlidingExact.after_history integer_ops small_config history).storage).1
    ≡ leb
        (granted_after "a"
            (window_start 113 small_config)
            (SlidingExact.after_history integer_ops small_config history).grants
          + 2)
        3
allowed_iff_fits_interval_example =
    SlidingExact.allowed_iff_fits_interval integer_ops small_config small_config_valid (omega arith)
      history (call 113 2) (omega arith) (omega arith) (omega arith) (omega arith) (omega arith)

-- What the two strategies let through of the history, latest first.
fixed_window_grants :
    (FixedExact.after_history integer_ops small_config history).grants
    ≡ call 112 2 ∷ call 104 1 ∷ call 100 2 ∷ []
unfolding run step FixedWindow.execute get set empty cleanup lookup insert delete_if erase int64
    ◌+ℤ◌ ◌-ℤ◌
fixed_window_grants = refl

sliding_window_grants :
    (SlidingExact.after_history integer_ops small_config history).grants
    ≡ call 112 2 ∷ call 104 1 ∷ call 100 2 ∷ []
unfolding run step SlidingWindow.execute get set empty cleanup lookup insert delete_if erase int64
    ◌+ℤ◌ ◌-ℤ◌
sliding_window_grants = refl
