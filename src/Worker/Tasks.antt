-- ===== src/Worker/Tasks.antt =====
-- The methods of task.go, and `calculateBackoff` of worker.go.
use my_go.Common.{
  ℤ, pos, negsuc, ◌+ℤ◌, ◌*ℤ◌, ltb_ℤ, leb_ℤ, int64, Time, Duration, Bool, false, if◌then◌else◌,
  sub_time, ◌^◌, ltb,
}
use my_go.Worker.{Task, Config, backoff_linear, backoff_exponential, backoff_fixed, other_backoff}

unfoldable pub should_retry : Task → Bool
should_retry t = ltb_ℤ t.retry t.max_retry

unfoldable pub increment_retry : Task → Task
increment_retry t = record t { retry = int64 (t.retry +ℤ pos 1) }

unfoldable pub is_expired : Time → Task → Bool
is_expired now t =
    if leb_ℤ t.timeout (pos 0) then false else ltb_ℤ t.timeout (sub_time now t.created_at)

-- `1<<uint(retry)`: a shift by 64 or more gives 0, and a negative count is a huge one.
abbrev pub shifted_one : ℤ → ℤ
shifted_one (pos n) = if ltb n 64 then int64 (pos (2 ^ n)) else pos 0
shifted_one (negsuc n) = pos 0

unfoldable pub calculate_backoff : Config → ℤ → Duration
calculate_backoff c retry = elim c.backoff_strategy [
  | backoff_exponential ↦ int64 (c.base_backoff *ℤ shifted_one retry)
  | backoff_linear ↦ int64 (c.base_backoff *ℤ int64 (retry +ℤ pos 1))
  | backoff_fixed ↦ c.base_backoff
  | other_backoff ↦ c.base_backoff
]
