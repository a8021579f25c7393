-- ===== src/Rate/Laws.antt =====
-- What the range of the buckets needs of float64: laws of IEEE 754 that hold with rounding and with
-- infinities, since `le` is false on NaN. An integer or a duration of Go has 64 bits, so its float
-- is finite; here both are integers of any size, and the laws say so of each.
use my_go.Common.{ℕ, suc, ℤ, pos, ◌≡◌, Duration, true, false}
use my_go.Rate.Types.{FloatOps}

module _ (fl : FloatOps) where
  open fl use {Float, zero, of_int, seconds, add, sub, mul, div, min, max, le}

  pub record FloatLaws : Type 1 where
    pub IsFinite : Float → Type 0
    pub finite_zero : IsFinite zero
    pub finite_of_int : (z : ℤ) → IsFinite (of_int z)
    pub finite_seconds : (d : Duration) → IsFinite (seconds d)
    pub finite_between :
        (a b c : Float) → IsFinite a → IsFinite c → le a b ≡ true → le b c ≡ true → IsFinite b
    pub le_refl : (a : Float) → IsFinite a → le a a ≡ true
    pub le_trans : (a b c : Float) → le a b ≡ true → le b c ≡ true → le a c ≡ true
    pub of_int_nonneg : (n : ℕ) → le zero (of_int (pos n)) ≡ true
    pub seconds_nonneg : (n : ℕ) → le zero (seconds (pos n)) ≡ true
    pub seconds_positive : (n : ℕ) → le (seconds (pos (suc n))) zero ≡ false
    pub min_le_right : (c a b : Float) → le c a ≡ true → IsFinite b → le (min a b) b ≡ true
    pub le_min : (c a b : Float) → le c a ≡ true → le c b ≡ true → le c (min a b) ≡ true
    pub le_max_left : (a b c : Float) → IsFinite a → le b c ≡ true → le a (max a b) ≡ true
    pub max_le : (a b c : Float) → le a c ≡ true → le b c ≡ true → le (max a b) c ≡ true
    pub add_nonneg : (a b : Float) → le zero a ≡ true → le zero b ≡ true → le zero (add a b) ≡ true
    pub mul_nonneg :
        (a b : Float)
        → IsFinite a
        → IsFinite b
        → le zero a ≡ true
        → le zero b ≡ true
        → le zero (mul a b) ≡ true
    pub div_nonneg :
        (a b : Float) → IsFinite b → le zero a ≡ true → le b zero ≡ false → le zero (div a b) ≡ true
    pub sub_nonneg :
        (a b : Float) → IsFinite a → IsFinite b → le b a ≡ true → le zero (sub a b) ≡ true
    pub sub_le : (a b : Float) → IsFinite a → le zero b ≡ true → le (sub a b) a ≡ true
