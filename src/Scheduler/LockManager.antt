-- ===== src/Scheduler/LockManager.antt =====
-- The settings and the refreshing of the lock manager, lock.go, over any backend.
use my_go.Common.{Time, Duration, String, List, [], ◌∷◌, pos, ◌*◌, second}
use my_go.Scheduler.Backend.{Backend}

pub record DistributedLock : Type 0 where
  pub lock_ttl : Duration
  pub refresh_interval : Duration

unfoldable pub new_distributed_lock : DistributedLock
new_distributed_lock = record { lock_ttl = pos (30 * second); refresh_interval = pos (10 * second) }

unfoldable pub with_lock_ttl : Duration → DistributedLock → DistributedLock
with_lock_ttl ttl d = record d { lock_ttl = ttl }

unfoldable pub with_refresh_interval : Duration → DistributedLock → DistributedLock
with_refresh_interval interval d = record d { refresh_interval = interval }

module _ {F H S : Type 0} (backend : Backend F H S) where
  -- The loop of `refreshLockPeriodically`, at the times of the ticks that come before its context ends;
  -- the errors of the refreshes are only logged.
  unfoldable pub refresh_lock_periodically : DistributedLock → String → String → List Time → S → S
  refresh_lock_periodically d key owner [] s = s
  refresh_lock_periodically d key owner (now ∷ ticks) s =
      refresh_lock_periodically d key owner ticks
        (backend.refresh_lock now key d.lock_ttl owner s).0
