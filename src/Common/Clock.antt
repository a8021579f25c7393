-- ===== src/Common/Clock.antt =====
-- Go's `time.Time` and `time.Duration`, in nanoseconds. A time counts from Go's zero time (the year
-- 1), so the zero time is 0; a duration is signed.
use Prim.Native.Nat.{ℕ, ◌+◌, ◌-◌, ◌%◌}
use mathlib.Core.Bool.{Bool}
use my_go.Common.Tests.{ltb, ◌==◌, if◌then◌else◌}
use my_go.Common.Int.{ℤ, pos, pos_part, neg_part, sub_ℕ, leb_ℤ}

abbrev pub Time : Type 0
Time = ℕ

abbrev pub Duration : Type 0
Duration = ℤ

-- `t.Add(d)`, for results that are not before the zero time.
abbrev pub add_time : Time → Duration → Time
add_time t d = t + pos_part d - neg_part d

-- `t.Sub(u)`, for times less than 292 years apart.
abbrev pub sub_time : Time → Time → Duration
sub_time t u = sub_ℕ t u

-- `t.After(u)`, `t.Before(u)` and `t.IsZero()`
abbrev pub after : Time → Time → Bool
after t u = ltb u t

abbrev pub before : Time → Time → Bool
before t u = ltb t u

abbrev pub is_zero_time : Time → Bool
is_zero_time t = t == 0

-- `t.Truncate(d)`: down to a multiple of `d` since the zero time; `t` itself for `d <= 0`.
abbrev pub truncate : Time → Duration → Time
truncate t d = if leb_ℤ d (pos 0) then t else t - t % pos_part d

abbrev pub second : ℕ
second = 1000000000
