-- ===== src/Rate/LeakyBucket/Range.antt =====
-- A leaky bucket never holds less than nothing, nor more than the burst.
use my_go.Common.{ℤ, neg_part, ◌≤◌, ◌≡◌, Time, true, sub_time, arith}
use my_go.Rate.Types.{FloatOps, Config, State, IsValid}
use my_go.Rate.Laws.{FloatLaws}
use my_go.Rate.Buckets.{InRange, of_int_natural, of_int_positive, seconds_interval, seconds_elapsed}
use my_go.Rate.LeakyBucket.{leaked, level}

module _ (fl : FloatOps) (laws : FloatLaws fl) where
  open fl use {Float, of_int, seconds, add, sub, mul, div, max, le}

  module _ (cfg : Config) (valid : IsValid cfg) where
    leaked_nonneg :
        (now then' : Time) → then' ≤ now → le fl.zero (leaked fl cfg (sub_time now then')) ≡ true
    unfolding leaked
    leaked_nonneg now then' h =
        laws.div_nonneg _ (seconds cfg.interval) (laws.finite_seconds _)
          (laws.mul_nonneg _ _ (laws.finite_seconds _) (laws.finite_of_int _)
            (seconds_elapsed fl laws now then' h)
            (of_int_positive fl laws cfg.rate (omega (arith, valid))))
          (seconds_interval fl laws cfg.interval valid.interval_positive)

    -- Leaking keeps the range.
    pub level-InRange :
        (now : Time) (st : State Float)
        → InRange fl laws cfg st.tokens
        → st.last_update ≤ now
        → InRange fl laws cfg (level fl cfg now st)
    unfolding level
    level-InRange now st r h = record {
      finite =
          laws.finite_between fl.zero _ (of_int cfg.burst) laws.finite_zero (laws.finite_of_int _)
            low high;
      nonneg = low;
      within = high;
    }
      where
        left : Float
        left = sub st.tokens (leaked fl cfg (sub_time now st.last_update))

        less : le left st.tokens ≡ true
        less = laws.sub_le _ _ r.finite (leaked_nonneg now st.last_update h)

        low : le fl.zero (max fl.zero left) ≡ true
        low = laws.le_max_left fl.zero left st.tokens laws.finite_zero less

        high : le (max fl.zero left) (of_int cfg.burst) ≡ true
        high =
            laws.max_le _ _ _ (of_int_positive fl laws cfg.burst (omega (arith, valid)))
              (laws.le_trans _ _ _ less r.within)

    -- So does adding what fits.
    pub raised-InRange :
        (n : ℤ) (lv : Float)
        → neg_part n ≡ 0
        → InRange fl laws cfg lv
        → le (add lv (of_int n)) (of_int cfg.burst) ≡ true
        → InRange fl laws cfg (add lv (of_int n))
    raised-InRange n lv h r fits = record {
      finite =
          laws.finite_between fl.zero _ (of_int cfg.burst) laws.finite_zero (laws.finite_of_int _)
            low fits;
      nonneg = low;
      within = fits;
    }
      where
        low : le fl.zero (add lv (of_int n)) ≡ true
        low = laws.add_nonneg _ _ r.nonneg (of_int_natural fl laws n h)

    pub empty-InRange : InRange fl laws cfg fl.zero
    empty-InRange = record {
      finite = laws.finite_zero;
      nonneg = laws.le_refl _ laws.finite_zero;
      within = of_int_positive fl laws cfg.burst (omega (arith, valid));
    }
