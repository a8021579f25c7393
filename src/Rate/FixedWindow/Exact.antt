-- ===== src/Rate/FixedWindow/Exact.antt =====
-- The fixed window counter against its specification: a window has a budget of `burst`.
use my_go.Common.{
  pos, pos_part, ◌<ℤ◌, ◌+◌, ◌≤◌, ◌<◌, ◌≡◌, ◌∙◌, refl, inl, inr, Time, String, List, [], none, leb,
  truncate, lookup, arith,
}
use my_go.Rate.Types.{FloatOps, Config, validate, validate-IsValid}
use my_go.Rate.Memory.{memory_storage, empty}
use my_go.Rate.History.{Call, Event, InOrder, Requests, World, is_allowed, run, run_inv, last_time}
use my_go.Rate.FixedWindow.{execute}
use my_go.Rate.FixedWindow.Windows.{lt-truncate}
use my_go.Rate.FixedWindow.Effect.{is_allowed-execute}
use my_go.Rate.FixedWindow.Safety.{
  granted_in, KeepsWindow, IsModest, Accounted, request-Accounted, sweep-Accounted,
  allowed-on_entry,
}

module _ (fl : FloatOps) where
  open fl use {Float}

  -- A limiter with the fixed window strategy over an empty in-memory storage, after a history.
  abbrev pub after_history : Config → List Event → World Float
  after_history cfg es =
      run (λ now k n. execute fl (memory_storage fl) now k n cfg)
        (record { storage = empty; grants = [] }) es

  module _ (cfg : Config) (valid : validate cfg ≡ none) (keeps : KeepsWindow cfg) where
    positive : pos 0 <ℤ cfg.interval
    positive = (validate-IsValid cfg valid).interval_positive

    burst_positive : pos 0 <ℤ cfg.burst
    burst_positive = omega (arith, validate-IsValid cfg valid)

    history-Accounted :
        (key : String) (t : Time) (es : List Event)
        → InOrder 0 es
        → Requests (IsModest cfg) es
        → Accounted fl cfg key (truncate t cfg.interval) (last_time 0 es) (after_history cfg es)
    unfolding empty lookup
    history-Accounted key t es order modest =
        run_inv (λ now k n. execute fl (memory_storage fl) now k n cfg)
          (Accounted fl cfg key (truncate t cfg.interval)) (IsModest cfg)
          (request-Accounted fl cfg key t positive keeps burst_positive)
          (sweep-Accounted fl cfg key t positive keeps burst_positive) 0
          (record { storage = empty; grants = [] }) es
          (record { total_le = omega arith; begun = inl refl; covered = inr refl }) order modest

    -- After any history in the order of the clock, the amounts that one key was granted in the
    -- window of any time `t` sum up to no more than the burst. The requests ask for no negative
    -- amount and for none so large that adding the burst passes the int64 range; the configuration
    -- is valid, and its ttl is no shorter than its interval.
    granted_in-le-burst :
        (key : String) (t : Time) (es : List Event)
        → InOrder 0 es
        → Requests (IsModest cfg) es
        → granted_in cfg.interval key (truncate t cfg.interval) (after_history cfg es).grants
          ≤ pos_part cfg.burst
    granted_in-le-burst key t es order modest = (history-Accounted key t es order modest).total_le

    -- The configuration is valid and its ttl is no shorter than its interval. After any history in the
    -- order of the clock, in which no request asks for a negative amount or for one so large that
    -- adding the burst passes the int64 range, a request for a positive amount of that kind is let
    -- through exactly if that amount, added to what its key was granted in the current window, is
    -- within the burst. So the counter
    -- that expires, is swept and starts again decides as a budget for each window does.
    pub allowed_iff_fits :
        (es : List Event) (c : Call)
        → InOrder 0 es
        → Requests (IsModest cfg) es
        → last_time 0 es ≤ c.at
        → IsModest cfg c
        → 0 < pos_part c.amount
        → is_allowed
            (execute fl
              (memory_storage fl)
              c.at
              c.key
              c.amount
              cfg
              (after_history cfg es).storage).1
          ≡ leb
              (granted_in cfg.interval c.key
                  (truncate c.at cfg.interval)
                  (after_history cfg es).grants
                + pos_part c.amount)
              (pos_part cfg.burst)
    allowed_iff_fits es c order modest later small some_n =
        let acc = history-Accounted c.key c.at es order modest in
        elim acc.covered [
          | inl over ↦ absurd (omega (arith, lt-truncate c.at cfg.interval positive))
          | inr cov ↦
              is_allowed-execute fl c.at c.key c.amount cfg (after_history cfg es).storage
              ∙ allowed-on_entry fl cfg (truncate c.at cfg.interval) (last_time 0 es) c.at c.amount
                  positive keeps burst_positive later (inl refl) small.0 small.1 _ _ cov refl some_n
        ]
