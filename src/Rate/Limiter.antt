-- ===== src/Rate/Limiter.antt =====
-- The limiter, internal/pkg/rate/limiter.go, and the middleware for workers, middleware_worker.go,
-- over any storage. What they tell the logger and the metrics is left out.
pub mod Outage
pub mod Reservations
pub mod Building
use my_go.Common.{
  ℤ, pos, ltb_ℤ, leb_ℤ, Time, Duration, String, Option, none, some, Bool, true, false, not, ◌&&◌,
  if◌then◌else◌, Fallible, ok, err, str_eq,
}
use my_go.Rate.Types.{
  FloatOps, Config, Storage, Result, Error, storage_unavailable, wraps_unavailable, invalid_config,
  rate_limit_exceeded, validate,
}
use my_go.Rate.TokenBucket
use my_go.Rate.LeakyBucket
use my_go.Rate.FixedWindow
use my_go.Rate.SlidingWindow

pub data Executor : Type 0 where
  token_bucket leaky_bucket fixed_window sliding_window : Executor

-- The `switch` of `New` on the strategy; `none` is its default.
unfoldable pub executor_of : String → Option Executor
executor_of s =
    if str_eq s "token_bucket"
    then some token_bucket
    else if str_eq s "leaky_bucket"
    then some leaky_bucket
    else if str_eq s "fixed_window"
    then some fixed_window
    else if str_eq s "sliding_window"
    then some sliding_window
    else none

pub record LimiterImpl : Type 0 where
  pub config : Config
  pub executor : Executor

unfoldable pub new : Config → Fallible Error LimiterImpl
new cfg = elim (validate cfg) [
  | some e ↦ err e
  | none ↦ elim (executor_of cfg.strategy) [
    | none ↦ err invalid_config
    | some x ↦ ok (record { config = cfg; executor = x })
  ]
]

-- A reservation; `cancels` says that its `cancel` function is set, for the key and the amount.
pub record Reservation : Type 0 where
  pub is_ok : Bool
  pub delay : Duration
  pub tokens : ℤ
  pub cancels : Option (String × ℤ)

-- `errors.Is(err, ErrStorageUnavailable)`
abbrev pub is_unavailable : Error → Bool
is_unavailable storage_unavailable = true
is_unavailable wraps_unavailable = true
is_unavailable _ = false

-- The answer to a request: its decision, or what an error makes of it.
abbrev pub decide : Bool → Fallible Error Result → Fallible Error Bool
decide fail_open (ok r) = ok r.allowed
decide fail_open (err e) = if is_unavailable e && fail_open then ok true else err e

abbrev pub decide_check : Bool → Fallible Error Result → Fallible Error Bool
decide_check fail_open (ok r) = ok (ltb_ℤ (pos 0) r.remaining)
decide_check fail_open (err e) = if is_unavailable e && fail_open then ok true else err e

abbrev pub reserved : String → ℤ → Result → Reservation
reserved key n r = record {
  is_ok = r.allowed;
  delay = r.retry_after;
  tokens = n;
  cancels = if not r.allowed && ltb_ℤ (pos 0) r.retry_after then some (key, n) else none;
}

abbrev pub decide_reservation :
    Bool → String → ℤ → Fallible Error Result → Reservation × Option Error
decide_reservation fail_open key n (ok r) = (reserved key n r, none)
decide_reservation fail_open key n (err e) =
    if is_unavailable e && fail_open
    then (record { is_ok = true; delay = pos 0; tokens = n; cancels = none }, none)
    else (record { is_ok = false; delay = pos 0; tokens = pos 0; cancels = none }, some e)

module _ (fl : FloatOps) {S : Type 0} (storage : Storage fl.Float S) where
  open storage use {increment, delete}

  -- `l.executor.Execute`, by dynamic dispatch.
  unfoldable pub execute : LimiterImpl → Time → String → ℤ → S → S × Fallible Error Result
  execute l now key n s = elim l.executor [
    | token_bucket ↦ TokenBucket.execute fl storage now key n l.config s
    | leaky_bucket ↦ LeakyBucket.execute fl storage now key n l.config s
    | fixed_window ↦ FixedWindow.execute fl storage now key n l.config s
    | sliding_window ↦ SlidingWindow.execute fl storage now key n l.config s
  ]

  unfoldable pub allow_n : LimiterImpl → Time → String → ℤ → S → S × Fallible Error Bool
  allow_n l now key n s = let (s', r) = execute l now key n s in (s', decide l.config.fail_open r)

  unfoldable pub allow : LimiterImpl → Time → String → S → S × Fallible Error Bool
  allow l now key s = allow_n l now key (pos 1) s

  unfoldable pub check : LimiterImpl → Time → String → S → S × Fallible Error Bool
  check l now key s =
      let (s', r) = execute l now key (pos 0) s in (s', decide_check l.config.fail_open r)

  unfoldable pub reserve_n : LimiterImpl → Time → String → ℤ → S → S × (Reservation × Option Error)
  reserve_n l now key n s =
      let (s', r) = execute l now key n s in (s', decide_reservation l.config.fail_open key n r)

  unfoldable pub reserve : LimiterImpl → Time → String → S → S × (Reservation × Option Error)
  reserve l now key s = reserve_n l now key (pos 1) s

  -- `Reservation.Cancel`; the error of `Increment` is dropped.
  unfoldable pub cancel : LimiterImpl → Time → Reservation → S → S
  cancel l now r s = elim r.cancels [
    | none ↦ s
    | some (key, n) ↦ (increment now key n l.config.ttl s).0
  ]

  -- `Reservation.Wait`: whether the context ends before the timer does is an argument. The result
  -- says whether the error of the context is returned.
  unfoldable pub wait : LimiterImpl → Time → Reservation → Bool → S → S × Bool
  wait l now r done_first s =
      if leb_ℤ r.delay (pos 0)
      then (s, false)
      else if done_first
      then (cancel l now r s, true)
      else (s, false)

  unfoldable pub reset : String → S → S × Option Error
  reset key s = delete key s

  -- `WorkerMiddleware.Wrap`: the handler `next` runs only when the limiter lets the task through.
  unfoldable pub wrap :
      {W : Type 0}
      → (W → W × Option Error)
      → LimiterImpl
      → Time
      → String
      → S × W
      → (S × W) × Option Error
  wrap next l now key (s, w) =
      let (s', r) = allow l now key s in
      let (w', e) = next w in
      elim r [
        | err x ↦ ((s', w), some x)
        | ok allowed ↦ if allowed then ((s', w'), e) else ((s', w), some rate_limit_exceeded)
      ]
