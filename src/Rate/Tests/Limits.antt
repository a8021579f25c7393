-- ===== src/Rate/Tests/Limits.antt =====
-- The limiter in an outage, with a reservation, and from a configuration file.
use my_go.Common.{
  ℕ, ℤ, pos, ◌≡◌, refl, ◌<ℤ◌, ◌⊎◌, [], ◌∷◌, some, none, true, false, ok, err, lookup, arith, int64,
  ◌+ℤ◌, ◌-ℤ◌, ◌*ℤ◌,
}
use my_go.Rate.Types.{Storage, wraps_unavailable}
use my_go.Rate.Memory.{MemoryStorage, StorageEntry, memory_storage, get, set}
use my_go.Rate.Config.{LimiterConfig, validate_limiter, validate_storage, to_config}
use my_go.Rate.FixedWindow
use my_go.Rate.Limiter.{LimiterImpl, fixed_window, execute, allow_n, check, reserve_n, new}
use my_go.Rate.Limiter.Outage.{outage_fails_as_configured, refused_unchanged}
use my_go.Rate.Limiter.Reservations.{cancel_blocks, cancelled}
use my_go.Rate.Limiter.Building.{checked_config_builds}
use my_go.Rate.Tests.Floats.{integer_ops}
use my_go.Rate.Tests.Windows.{small_config}

-- A storage that is down, with a call count for its state.
abbrev down : Storage ℤ ℕ
down = record {
  get = λ now key s. (none, some wraps_unavailable);
  set = λ now key st ttl s. (s, some wraps_unavailable);
  increment = λ now key n ttl s. (s, err wraps_unavailable);
  delete = λ key s. (s, some wraps_unavailable);
}

abbrev limiter : LimiterImpl
limiter = record { config = small_config; executor = fixed_window }

outage_fails_as_configured_example :
    (allow_n integer_ops down limiter 100 "a" (pos 1) 0 ≡ (0, err wraps_unavailable))
    × (check integer_ops down limiter 100 "a" 0 ≡ (0, err wraps_unavailable))
    × ((reserve_n integer_ops down limiter 100 "a" (pos 1) 0).0 ≡ 0)
    × ((reserve_n integer_ops down limiter 100 "a" (pos 1) 0).1.0.is_ok ≡ false)
    × ((reserve_n integer_ops down limiter 100 "a" (pos 1) 0).1.1 ≡ some wraps_unavailable)
outage_fails_as_configured_example =
    outage_fails_as_configured integer_ops down limiter 100 "a" 0 (pos 1) refl

abbrev entry : StorageEntry ℤ
entry = record {
  state = record {
    tokens = pos 0;
    last_update = 0;
    counter = pos 2;
    window_start = 100;
    timestamps = [];
  };
  expires_at = 120;
}

abbrev store : MemoryStorage ℤ
store = record { entries = ("a", entry) ∷ [] }

stored : lookup "a" store.entries ≡ some entry
unfolding lookup
stored = refl

refused_unchanged_example :
    ((allow_n integer_ops (memory_storage integer_ops) limiter 105 "a" (pos 2) store).0 ≡ store)
    × ((check integer_ops (memory_storage integer_ops) limiter 105 "a" store).0 ≡ store)
unfolding allow_n execute FixedWindow.execute get set lookup int64 ◌+ℤ◌ ◌-ℤ◌
refused_unchanged_example =
    refused_unchanged integer_ops (memory_storage integer_ops) limiter 105 "a" store (pos 2)

cancel_blocks_example :
    ((reserve_n integer_ops (memory_storage integer_ops) limiter 105 "a" (pos 2) store).1.0.is_ok
      ≡ false)
    × ((allow_n integer_ops (memory_storage integer_ops) limiter 105 "a" (pos 1) store).1 ≡ ok true)
    × ((allow_n integer_ops (memory_storage integer_ops) limiter 105 "a" (pos 1) (
          cancelled integer_ops small_config 105 "a" 2 2 store entry
            (omega arith)
            stored
            (omega arith)
            refl
            refl
            (omega arith)
            (omega arith)
            (omega arith))).1
        ≡ ok false)
cancel_blocks_example =
    cancel_blocks integer_ops small_config 105 "a" 2 2 store entry (omega arith) stored
      (omega arith) refl refl (omega arith) (omega arith) (omega arith) 1 (omega arith)
      (omega arith) (omega arith)

-- A file with no burst, ttl, storage type or prefix; the check fills them in.
abbrev file : LimiterConfig
file = record {
  strategy = "leaky_bucket";
  rate = pos 5;
  burst = pos 0;
  interval = pos 10;
  ttl = pos 0;
  fail_open = true;
  storage = record {
    storage_type = "";
    redis = record { addr = ""; password = ""; db = pos 0; pool_size = pos 0 };
    key_prefix = "";
  };
}

abbrev corrected : LimiterConfig
corrected = record file {
  burst = pos 5;
  ttl = pos 20;
  storage = record {
    storage_type = "memory";
    redis = record { addr = ""; password = ""; db = pos 0; pool_size = pos 0 };
    key_prefix = "ratelimit";
  };
}

file_passes : validate_limiter file ≡ (corrected, none)
unfolding validate_limiter validate_storage int64 ◌*ℤ◌
file_passes = refl

checked_config_builds_example :
    (l : LimiterImpl) × (new (to_config corrected) ≡ ok l)
    × (l.config ≡ to_config corrected)
    × (pos 0 <ℤ corrected.ttl)
    × ((corrected.storage.storage_type ≡ "memory") ⊎ (corrected.storage.storage_type ≡ "redis"))
checked_config_builds_example = checked_config_builds file corrected file_passes (omega arith)
