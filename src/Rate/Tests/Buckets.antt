-- ===== src/Rate/Tests/Buckets.antt =====
-- The buckets on a short history.
use my_go.Common.{
  pos, ◌≡◌, refl, [], some, lookup, arith, insert, erase, delete_if, ◌+ℤ◌, ◌-ℤ◌, ◌*ℤ◌,
}
use my_go.Rate.Memory.{StorageEntry, memory_storage, empty, get, set, cleanup}
use my_go.Rate.History.{run, step}
use my_go.Rate.Buckets.{InRange}
use my_go.Rate.TokenBucket
use my_go.Rate.TokenBucket.{refilled, earned}
use my_go.Rate.TokenBucket.Histories as TokenHistories
use my_go.Rate.LeakyBucket
use my_go.Rate.LeakyBucket.{level, leaked}
use my_go.Rate.LeakyBucket.Histories as LeakyHistories
use my_go.Rate.Tests.Floats.{integer_ops, integer_laws}
use my_go.Rate.Tests.Windows.{small_config, history}

abbrev token_entry : StorageEntry integer_ops.Float
token_entry = record {
  state = record {
    tokens = pos 0;
    last_update = 104;
    counter = pos 0;
    window_start = 0;
    timestamps = [];
  };
  expires_at = 124;
}

token_run :
    lookup "a"
      (run
        (λ now k n.
          TokenBucket.execute integer_ops (memory_storage integer_ops) now k n small_config)
        (record { storage = empty; grants = [] })
        history).storage.entries
    ≡ some token_entry
unfolding run step TokenBucket.execute refilled earned get set empty cleanup lookup insert delete_if
    erase ◌+ℤ◌ ◌-ℤ◌ ◌*ℤ◌
token_run = refl

tokens-InRange_example : InRange integer_ops integer_laws small_config (pos 0)
tokens-InRange_example =
    TokenHistories.tokens-InRange integer_ops integer_laws small_config (omega arith) history "a"
      token_entry (omega arith) (omega arith) token_run

abbrev leaky_entry : StorageEntry integer_ops.Float
leaky_entry = record {
  state = record {
    tokens = pos 3;
    last_update = 104;
    counter = pos 0;
    window_start = 0;
    timestamps = [];
  };
  expires_at = 124;
}

leaky_run :
    lookup "a"
      (run
        (λ now k n.
          LeakyBucket.execute integer_ops (memory_storage integer_ops) now k n small_config)
        (record { storage = empty; grants = [] })
        history).storage.entries
    ≡ some leaky_entry
unfolding run step LeakyBucket.execute level leaked get set empty cleanup lookup insert delete_if
    erase ◌+ℤ◌ ◌-ℤ◌ ◌*ℤ◌
leaky_run = refl

level_stored-InRange_example : InRange integer_ops integer_laws small_config (pos 3)
level_stored-InRange_example =
    LeakyHistories.level_stored-InRange integer_ops integer_laws small_config (omega arith) history
      "a" leaky_entry (omega arith) (omega arith) leaky_run
