-- ===== src/Rate/Tests/Floats.antt =====
-- Integers as floats, with a nanosecond as the unit of time: an instance of the float laws.
use my_go.Common.{
  ℕ, ℤ, pos, negsuc, pos_part, ◌+ℤ◌, ◌-ℤ◌, ◌*ℤ◌, ◌/◌, ◌≡◌, suc, leb_ℤ, if◌then◌else◌, true, false,
  arith,
}
use my_go.Rate.Types.{FloatOps}
use my_go.Rate.Laws.{FloatLaws}

abbrev pub integer_ops : FloatOps
integer_ops = record {
  Float = ℤ;
  zero = pos 0;
  of_int = λ z. z;
  seconds = λ d. d;
  add = λ a b. a +ℤ b;
  sub = λ a b. a -ℤ b;
  mul = λ a b. a *ℤ b;
  div = λ a b. pos (pos_part a / pos_part b);
  min = λ a b. if leb_ℤ a b then a else b;
  max = λ a b. if leb_ℤ a b then b else a;
  le = leb_ℤ;
  floor_int = λ z. z;
  to_duration = λ z. z;
}

le_refl_ℤ : (a : ℤ) → leb_ℤ a a ≡ true
le_refl_ℤ a = ground arith

of_int_nonneg_ℤ : (n : ℕ) → leb_ℤ (pos 0) (pos n) ≡ true
of_int_nonneg_ℤ n = ground arith

positive_ℤ : (n : ℕ) → leb_ℤ (pos (suc n)) (pos 0) ≡ false
positive_ℤ n = ground arith

min_le_right_ℤ : (a b : ℤ) → leb_ℤ (if leb_ℤ a b then a else b) b ≡ true
min_le_right_ℤ a b = ground arith

le_max_left_ℤ : (a b : ℤ) → leb_ℤ a (if leb_ℤ a b then b else a) ≡ true
le_max_left_ℤ a b = ground arith

le_trans_ℤ : (a b c : ℤ) → leb_ℤ a b ≡ true → leb_ℤ b c ≡ true → leb_ℤ a c ≡ true
le_trans_ℤ a b c h k = ground arith

le_min_ℤ :
    (c a b : ℤ) → leb_ℤ c a ≡ true → leb_ℤ c b ≡ true → leb_ℤ c (if leb_ℤ a b then a else b) ≡ true
le_min_ℤ c a b h k = ground arith

max_le_ℤ :
    (a b c : ℤ) → leb_ℤ a c ≡ true → leb_ℤ b c ≡ true → leb_ℤ (if leb_ℤ a b then b else a) c ≡ true
max_le_ℤ a b c h k = ground arith

add_nonneg_ℤ :
    (a b : ℤ) → leb_ℤ (pos 0) a ≡ true → leb_ℤ (pos 0) b ≡ true → leb_ℤ (pos 0) (a +ℤ b) ≡ true
unfolding ◌+ℤ◌
add_nonneg_ℤ a b h k = ground arith

mul_nonneg_ℤ :
    (a b : ℤ) → leb_ℤ (pos 0) a ≡ true → leb_ℤ (pos 0) b ≡ true → leb_ℤ (pos 0) (a *ℤ b) ≡ true
unfolding ◌*ℤ◌
mul_nonneg_ℤ (pos a) (pos b) h k = ground arith
mul_nonneg_ℤ (pos a) (negsuc b) h k = absurd (ground arith)
mul_nonneg_ℤ (negsuc a) (pos b) h k = absurd (ground arith)
mul_nonneg_ℤ (negsuc a) (negsuc b) h k = absurd (ground arith)

sub_nonneg_ℤ : (a b : ℤ) → leb_ℤ b a ≡ true → leb_ℤ (pos 0) (a -ℤ b) ≡ true
unfolding ◌-ℤ◌
sub_nonneg_ℤ a b h = ground arith

sub_le_ℤ : (a b : ℤ) → leb_ℤ (pos 0) b ≡ true → leb_ℤ (a -ℤ b) a ≡ true
unfolding ◌-ℤ◌
sub_le_ℤ a b h = ground arith

pub integer_laws : FloatLaws integer_ops
integer_laws = record {
  IsFinite = λ z. Unit {0};
  finite_zero = tt;
  finite_of_int = λ z. tt;
  finite_seconds = λ d. tt;
  finite_between = λ a b c h k l m. tt;
  le_refl = λ a h. le_refl_ℤ a;
  le_trans = le_trans_ℤ;
  of_int_nonneg = λ n. of_int_nonneg_ℤ n;
  seconds_nonneg = λ n. of_int_nonneg_ℤ n;
  seconds_positive = λ n. positive_ℤ n;
  min_le_right = λ c a b h k. min_le_right_ℤ a b;
  le_min = le_min_ℤ;
  le_max_left = λ a b c h k. le_max_left_ℤ a b;
  max_le = max_le_ℤ;
  add_nonneg = add_nonneg_ℤ;
  mul_nonneg = λ a b h k. mul_nonneg_ℤ a b;
  div_nonneg = λ a b h k l. of_int_nonneg_ℤ _;
  sub_nonneg = λ a b h k. sub_nonneg_ℤ a b;
  sub_le = λ a b h. sub_le_ℤ a b;
}
