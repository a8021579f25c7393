-- ===== src/Rate/TokenBucket/Range.antt =====
-- A token bucket never holds fewer than no tokens, nor more than the burst.
use my_go.Common.{ℤ, neg_part, ◌≤◌, ◌≡◌, Time, true, sub_time, arith}
use my_go.Rate.Types.{FloatOps, Config, State, IsValid}
use my_go.Rate.Laws.{FloatLaws}
use my_go.Rate.Buckets.{InRange, of_int_natural, of_int_positive, seconds_interval, seconds_elapsed}
use my_go.Rate.TokenBucket.{earned, refilled}

module _ (fl : FloatOps) (laws : FloatLaws fl) where
  open fl use {Float, of_int, seconds, add, sub, mul, div, min, le}

  module _ (cfg : Config) (valid : IsValid cfg) where
    earned_nonneg :
        (now then' : Time) → then' ≤ now → le fl.zero (earned fl cfg (sub_time now then')) ≡ true
    unfolding earned
    earned_nonneg now then' h =
        laws.div_nonneg _ (seconds cfg.interval) (laws.finite_seconds _)
          (laws.mul_nonneg _ _ (laws.finite_seconds _) (laws.finite_of_int _)
            (seconds_elapsed fl laws now then' h)
            (of_int_positive fl laws cfg.rate (omega (arith, valid))))
          (seconds_interval fl laws cfg.interval valid.interval_positive)

    -- Refilling keeps the range.
    pub refilled-InRange :
        (now : Time) (st : State Float)
        → InRange fl laws cfg st.tokens
        → st.last_update ≤ now
        → InRange fl laws cfg (refilled fl cfg now st)
    unfolding refilled
    refilled-InRange now st r h = record {
      finite =
          laws.finite_between fl.zero _ (of_int cfg.burst) laws.finite_zero (laws.finite_of_int _)
            low high;
      nonneg = low;
      within = high;
    }
      where
        sum : le fl.zero (add st.tokens (earned fl cfg (sub_time now st.last_update))) ≡ true
        sum = laws.add_nonneg _ _ r.nonneg (earned_nonneg now st.last_update h)

        low :
            le fl.zero
              (min (add st.tokens (earned fl cfg (sub_time now st.last_update))) (of_int cfg.burst))
            ≡ true
        low = laws.le_min _ _ _ sum (of_int_positive fl laws cfg.burst (omega (arith, valid)))

        high :
            le
              (min (add st.tokens (earned fl cfg (sub_time now st.last_update))) (of_int cfg.burst))
              (of_int cfg.burst)
            ≡ true
        high = laws.min_le_right fl.zero _ _ sum (laws.finite_of_int _)

    -- So does taking what is there.
    pub taken-InRange :
        (n : ℤ) (tokens : Float)
        → neg_part n ≡ 0
        → InRange fl laws cfg tokens
        → le (of_int n) tokens ≡ true
        → InRange fl laws cfg (sub tokens (of_int n))
    taken-InRange n tokens h r fits = record {
      finite = laws.finite_between fl.zero _ tokens laws.finite_zero r.finite low high;
      nonneg = low;
      within = laws.le_trans _ tokens _ high r.within;
    }
      where
        low : le fl.zero (sub tokens (of_int n)) ≡ true
        low = laws.sub_nonneg _ _ r.finite (laws.finite_of_int n) fits

        high : le (sub tokens (of_int n)) tokens ≡ true
        high = laws.sub_le _ _ r.finite (of_int_natural fl laws n h)

    pub full-InRange : InRange fl laws cfg (of_int cfg.burst)
    full-InRange = record {
      finite = laws.finite_of_int _;
      nonneg = of_int_positive fl laws cfg.burst (omega (arith, valid));
      within = laws.le_refl _ (laws.finite_of_int _);
    }
