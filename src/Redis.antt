-- ===== src/Redis.antt =====
-- The Redis client (github.com/redis/go-redis/v9) as the storages and the scheduler's backend call it,
-- and the lock of internal/pkg/redis/lock.go, with the
-- marks of redis/idempotency and the keys of redis/keys. The package and the server are outside the repository,
-- so a client is a record of their commands, with the client and its server in a state `D`. A time
-- is what the server's clock shows. A command that fails has a message.
pub mod Entries
pub mod Keeping
pub mod Server
use Prim.Native.String.{◌++◌ as append}
use my_go.Common.{
  ℕ, zero, suc, ℤ, pos, negsuc, ◌+◌, ◌/◌, Time, Duration, second, String, List, Option, Bool,
  Fallible,
}

-- The commands of a pipeline.
pub data Command : Type 0 where
  set_command : String → String → Duration → Command
  sadd_command srem_command : String → String → Command
  del_command : String → Command

-- `get` gives `none` for `redis.Nil`. The first group is of the client's methods, where a command can
-- fail; the second is of `redis.call` inside a Lua script, which runs on the server, undisturbed.
pub record Client (D : Type 0) : Type 0 where
  pub get : Time → String → D → Fallible String (Option String)
  pub exists : Time → String → D → Fallible String ℤ
  pub smembers : String → D → Fallible String (List String)
  pub set : Time → String → String → Duration → D → D × Option String
  pub set_nx : Time → String → String → Duration → D → D × Fallible String Bool
  pub del : String → D → D × Option String
  pub ping : D → Option String
  pub exec : Time → List Command → D → D × Option String
  pub run_script : (D → D × Fallible String ℤ) → D → D × Fallible String ℤ
  pub call_get : Time → String → D → Option String
  pub call_del : Time → String → D → D × ℤ
  pub call_expire : Time → String → ℤ → D → D × ℤ
  pub call_set_ex : Time → String → ℤ → ℤ → D → D × Option String
  pub call_incrby : Time → String → ℤ → D → D × Fallible String ℤ

abbrev minus : ℕ → ℤ
minus zero = pos 0
minus (suc n) = negsuc n

-- `int(d.Seconds())`: whole seconds, towards zero. The rounding of the float64 between is left out.
abbrev pub whole_seconds : Duration → ℤ
whole_seconds (pos n) = pos (n / second)
whole_seconds (negsuc n) = minus ((n + 1) / second)

-- The keys of redis/keys.
unfoldable pub delivered_key : String → String
delivered_key notification_id = append "delivered" (append ":" notification_id)

unfoldable pub metrics_daily_key : String → String → String
metrics_daily_key metric day = append "metrics" (append ":" (append metric (append ":" day)))

abbrev pub delayed_zset_key : String
delayed_zset_key = "zset:notifications:delayed"

module _ {D : Type 0} (client : Client D) where
  -- `Locker.TryLock`
  unfoldable pub try_lock : Time → String → String → Duration → D → D × Fallible String Bool
  try_lock now key value ttl d = client.set_nx now key value ttl d

  -- `Locker.Unlock`
  unfoldable pub unlock : String → D → D × Option String
  unlock key d = client.del key d

  -- `MarkIfFirst` and `MarkDeliveredIfFirst` of redis/idempotency
  unfoldable pub mark_if_first : Time → String → Duration → D → D × Fallible String Bool
  mark_if_first now key ttl d = client.set_nx now key "1" ttl d

  unfoldable pub mark_delivered_if_first : Time → String → Duration → D → D × Fallible String Bool
  mark_delivered_if_first now notification_id ttl d =
      mark_if_first now (delivered_key notification_id) ttl d
