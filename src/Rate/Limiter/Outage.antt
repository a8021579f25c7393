-- ===== src/Rate/Limiter/Outage.antt =====
-- What a limiter does when its storage fails, and what it leaves of the storage.
use my_go.Common.{
  ℤ, pos, ◌≡◌, refl, Bool, Fallible, Time, String, none, some, true, false, if◌then◌else◌, ok, err,
  arith,
}
use my_go.Rate.Types.{FloatOps, Config, Storage, wraps_unavailable}
use my_go.Rate.TokenBucket
use my_go.Rate.LeakyBucket
use my_go.Rate.FixedWindow
use my_go.Rate.SlidingWindow
use my_go.Rate.Limiter.{LimiterImpl, Executor, token_bucket, execute, allow_n, check, reserve_n}

-- The state before a refusal, or else the state after.
abbrev pub unless_refused : {S E : Type 0} → S → S × Fallible E Bool → S
unless_refused s (s', ok false) = s
unless_refused s (s', r) = s'

refused_kept :
    {S E : Type 0} {s : S} (r : S × Fallible E Bool)
    → (r.1 ≡ ok false → r.0 ≡ s)
    → r.0 ≡ unless_refused s r
refused_kept (s', ok false) h = h refl
refused_kept (s', ok true) h = refl
refused_kept (s', err e) h = refl

module _ (fl : FloatOps) {S : Type 0} (storage : Storage fl.Float S) (l : LimiterImpl) (now : Time)
    (key : String) (s : S) where
  execute_down :
      (x : Executor) (cfg : Config) (n : ℤ)
      → (storage.get now key s).1 ≡ some wraps_unavailable
      → execute fl storage (record { config = cfg; executor = x }) now key n s
        ≡ (s, err wraps_unavailable)
  unfolding execute TokenBucket.execute LeakyBucket.execute FixedWindow.execute
      SlidingWindow.execute
  execute_down token_bucket cfg n down = ground arith
  execute_down _ cfg n down = ground arith

  -- While `Get` fails with an error that wraps `ErrStorageUnavailable`, the answers of `AllowN`,
  -- `Check` and `ReserveN` are those that `FailOpen` names: all is let through, or the error is
  -- returned and nothing is. That is so for every strategy and every amount, and the storage is
  -- left as it was.
  pub outage_fails_as_configured :
      (n : ℤ)
      → (storage.get now key s).1 ≡ some wraps_unavailable
      → (allow_n fl storage l now key n s
          ≡ (s, if l.config.fail_open then ok true else err wraps_unavailable))
        × (check fl storage l now key s
            ≡ (s, if l.config.fail_open then ok true else err wraps_unavailable))
        × ((reserve_n fl storage l now key n s).0 ≡ s)
        × ((reserve_n fl storage l now key n s).1.0.is_ok ≡ l.config.fail_open)
        × ((reserve_n fl storage l now key n s).1.1
            ≡ (if l.config.fail_open then none else some wraps_unavailable))
  unfolding allow_n check reserve_n
  outage_fails_as_configured n down = ground (
    arith,
    execute_down l.executor l.config n down,
    execute_down l.executor l.config (pos 0) down,
  )

  execute_peek :
      (x : Executor) (cfg : Config)
      → (execute fl storage (record { config = cfg; executor = x }) now key (pos 0) s).0 ≡ s
  unfolding execute TokenBucket.execute LeakyBucket.execute FixedWindow.execute
      SlidingWindow.execute
  execute_peek token_bucket cfg = ground arith
  execute_peek _ cfg = ground arith

  execute_refused :
      (x : Executor) (cfg : Config) (n : ℤ)
      → (allow_n fl storage (record { config = cfg; executor = x }) now key n s).1 ≡ ok false
      → (allow_n fl storage (record { config = cfg; executor = x }) now key n s).0 ≡ s
  unfolding allow_n execute TokenBucket.execute LeakyBucket.execute FixedWindow.execute
      SlidingWindow.execute
  execute_refused token_bucket cfg n h = ground arith
  execute_refused _ cfg n h = ground arith

  -- For every strategy and storage, a request leaves the storage as it was unless it is let through or
  -- returns an error, and `Check` always leaves it so, also where it returns an error.
  pub refused_unchanged :
      (n : ℤ)
      → ((allow_n fl storage l now key n s).0 ≡ unless_refused s (allow_n fl storage l now key n s))
        × ((check fl storage l now key s).0 ≡ s)
  unfolding check
  refused_unchanged n = (
    refused_kept (allow_n fl storage l now key n s) (execute_refused l.executor l.config n),
    execute_peek l.executor l.config,
  )
