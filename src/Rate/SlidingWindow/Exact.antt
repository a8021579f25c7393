-- ===== src/Rate/SlidingWindow/Exact.antt =====
-- The sliding window log against its specification: every interval has a budget of `burst`.
use my_go.Common.{
  pos, pos_part, ◌<ℤ◌, ◌+◌, ◌≤◌, ◌<◌, ◌≡◌, ◌∙◌, refl, Time, String, List, [], none, leb, lookup,
  arith,
}
use my_go.Rate.Types.{FloatOps, Config, validate, validate-IsValid}
use my_go.Rate.Memory.{memory_storage, empty}
use my_go.Rate.History.{Call, Event, InOrder, Requests, World, is_allowed, run, run_inv, last_time}
use my_go.Rate.FixedWindow.Safety.{KeepsWindow, IsModest}
use my_go.Rate.SlidingWindow.{execute, window_start}
use my_go.Rate.SlidingWindow.Effect.{is_allowed-execute}
use my_go.Rate.SlidingWindow.Safety.{granted_after, allowed-on_entry, window_start-eq}
use my_go.Rate.SlidingWindow.Keeping.{Logged, execute_with, request-Logged, sweep-Logged}

module _ (fl : FloatOps) where
  open fl use {Float}

  -- A limiter with the sliding window strategy over an empty in-memory storage, after a history.
  abbrev pub after_history : Config → List Event → World Float
  after_history cfg es =
      run (λ now k n. execute fl (memory_storage fl) now k n cfg)
        (record { storage = empty; grants = [] }) es

  module _ (cfg : Config) (valid : validate cfg ≡ none) (keeps : KeepsWindow cfg) where
    positive : pos 0 <ℤ cfg.interval
    positive = (validate-IsValid cfg valid).interval_positive

    burst_positive : pos 0 <ℤ cfg.burst
    burst_positive = omega (arith, validate-IsValid cfg valid)

    history-Logged :
        (key : String) (es : List Event)
        → InOrder 0 es
        → Requests (IsModest cfg) es
        → Logged fl cfg key positive keeps burst_positive (last_time 0 es) (after_history cfg es)
    unfolding empty lookup
    history-Logged key es order modest =
        run_inv (execute_with fl cfg key positive keeps burst_positive)
          (Logged fl cfg key positive keeps burst_positive) (IsModest cfg)
          (request-Logged fl cfg key positive keeps burst_positive)
          (sweep-Logged fl cfg key positive keeps burst_positive) 0
          (record { storage = empty; grants = [] }) es
          (record {
            settled = λ cut le. refl;
            bounded = λ cut le. omega arith;
            logs = λ cut le. refl;
          })
          order modest

    -- After any history in the order of the clock, the amounts that one key was granted after a cut
    -- sum up to no more than the burst, for every cut that the last event is at most one interval
    -- past. So no span of one interval, wherever it begins, lets through more than the burst. The
    -- requests ask for no negative amount and for none so large that adding the burst passes the
    -- int64 range; the configuration is valid, and its ttl is no shorter than its interval.
    pub granted_after-le-burst :
        (key : String) (cut : Time) (es : List Event)
        → InOrder 0 es
        → Requests (IsModest cfg) es
        → last_time 0 es ≤ cut + pos_part cfg.interval
        → granted_after key cut (after_history cfg es).grants ≤ pos_part cfg.burst
    granted_after-le-burst key cut es order modest near =
        (history-Logged key es order modest).bounded cut near

    -- The configuration is valid and its ttl is no shorter than its interval. After any history in the
    -- order of the clock, in which no request asks for a negative amount or for one so large that
    -- adding the burst passes the int64 range, a request for a positive amount of that kind is let
    -- through exactly if that amount, added to what its key was granted within the interval before
    -- it, is within the burst. So the
    -- log that is pruned, expires and is swept decides as the full record of grants does.
    pub allowed_iff_fits_interval :
        (es : List Event) (c : Call)
        → InOrder 0 es
        → Requests (IsModest cfg) es
        → last_time 0 es ≤ c.at
        → IsModest cfg c
        → 0 < pos_part c.amount
        → is_allowed
            (execute fl
              (memory_storage fl)
              c.at
              c.key
              c.amount
              cfg
              (after_history cfg es).storage).1
          ≡ leb
              (granted_after c.key (window_start c.at cfg) (after_history cfg es).grants
                + pos_part c.amount)
              (pos_part cfg.burst)
    allowed_iff_fits_interval es c order modest later small some_n =
        let kept = history-Logged c.key es order modest in
        let granted = λ (cut : Time). granted_after c.key cut (after_history cfg es).grants in
        is_allowed-execute fl c.at c.key c.amount cfg (after_history cfg es).storage
        ∙ allowed-on_entry fl cfg (last_time 0 es) c.at positive later keeps c.amount small.0
            small.1 (lookup c.key (after_history cfg es).storage.entries) granted kept.logs
            burst_positive
            (kept.bounded (window_start c.at cfg)
              (omega (arith, window_start-eq fl cfg (last_time 0 es) c.at positive later)))
            some_n
