-- ===== src/Rate/FixedWindow/Windows.antt =====
-- `time.Truncate` cuts time into windows: where a window begins, and that windows do not overlap.
use native.Mathlib.Nat.{div-add-mod', mod-lt, div-eq_of_lt-le}
use my_go.Common.{
  ℕ, ◌+◌, ◌*◌, ◌/◌, ◌≤◌, ◌<◌, ◌≡◌, ◌∙◌, sym, ap, Time, Duration, pos, negsuc, pos_part, ◌<ℤ◌,
  truncate, arith,
}

module _ (t : Time) (i : ℕ) (positive : 0 < i) where
  truncate-eq-mul : truncate t (pos i) ≡ t / i * i
  truncate-eq-mul = ground (arith, div-add-mod' t i)

  lt_truncate_pos : t < truncate t (pos i) + i
  lt_truncate_pos = ground (arith, mod-lt t positive)

same_window :
    (t u : Time) (i : ℕ)
    → 0 < i
    → truncate u (pos i) ≤ t
    → t < truncate u (pos i) + i
    → truncate t (pos i) ≡ truncate u (pos i)
same_window t u i positive h k =
    truncate-eq-mul t i positive ∙ ap (λ (q : ℕ). q * i) same ∙ sym (truncate-eq-mul u i positive)
  where
    same : t / i ≡ u / i
    same =
        div-eq_of_lt-le i (omega (arith, truncate-eq-mul u i positive))
          (omega (arith, truncate-eq-mul u i positive))

-- A time lies in the window that its truncation begins.
pub truncate-le : (t : Time) (d : Duration) → truncate t d ≤ t
truncate-le t d = ground arith

pub lt-truncate : (t : Time) (d : Duration) → pos 0 <ℤ d → t < truncate t d + pos_part d
lt-truncate t (pos i) h = lt_truncate_pos t i (omega arith)
lt-truncate t (negsuc i) h = absurd (omega arith)

-- Two windows that share a time are one.
pub truncate_unique :
    (t u : Time) (d : Duration)
    → pos 0 <ℤ d
    → truncate u d ≤ t
    → t < truncate u d + pos_part d
    → truncate t d ≡ truncate u d
truncate_unique t u (pos i) h k l = same_window t u i (omega arith) k l
truncate_unique t u (negsuc i) h k l = absurd (omega arith)
