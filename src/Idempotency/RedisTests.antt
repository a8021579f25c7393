-- ===== src/Idempotency/RedisTests.antt =====
-- A witness on a Redis server in memory: two callers want one key.
use my_go.Common.{◌*◌, ◌≡◌, ◌≢◌, refl, pos, List, [], ◌∷◌, true, ok, err, lookup, second, arith}
use my_go.Redis.Server.{no_entries, server_client, held, server-IsRedis}
use my_go.Redis.Entries.{millisecond}
use my_go.Idempotency.Redis.{RecordCodec, try_mark_processing}
use my_go.Idempotency.Marks.{
  StorageCall, marking, saving_result, saving_error, call_all, try_mark_processing-once,
}

-- The text of a record is its key; none is read here.
abbrev keys_only : RecordCodec
keys_only = record { marshal = λ r. ok r.key; unmarshal = λ t. err "not read" }

abbrev writes : List StorageCall
writes =
    marking (6 * second) "order-1"
    ∷ saving_result (7 * second) "order-1" (42 ∷ [])
    ∷ saving_error (8 * second) "order-2" "declined"
    ∷ []

first_marks :
    (try_mark_processing server_client keys_only "idempotency"
      (5 * second)
      "order-1"
      (pos (30000 * millisecond))
      no_entries).1
    ≡ ok true
unfolding try_mark_processing lookup
first_marks = refl

try_mark_processing-once_example :
    let d =
      call_all server_client keys_only "idempotency"
        (pos (30000 * millisecond))
        (marking (5 * second) "order-1" ∷ writes)
        no_entries in
    (try_mark_processing server_client keys_only "idempotency"
      (34 * second)
      "order-1"
      (pos (30000 * millisecond))
      d).1
    ≢ ok true
try_mark_processing-once_example =
    try_mark_processing-once server_client held server-IsRedis keys_only "idempotency" 29999
      "order-1" (5 * second) (34 * second) writes no_entries first_marks
      (omega arith, (omega arith, (omega arith, omega arith))) (omega arith)
