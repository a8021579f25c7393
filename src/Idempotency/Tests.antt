-- ===== src/Idempotency/Tests.antt =====
-- Witnesses and runs: numbers as results, written as one byte, and three callers of one key.
use my_go.Common.{
  ℕ, ◌+◌, ◌≡◌, refl, String, List, [], ◌∷◌, Fallible, ok, err, pos, lookup, insert, erase,
  delete_if, arith,
}
use my_go.Idempotency.{exec_failed, previously_failed}
use my_go.Idempotency.Memory.{
  cleanup, memory_storage, empty, load, try_mark_processing, save_result,
}
use my_go.Idempotency.Service.{Serializer, execute, on_load, on_mark, save}
use my_go.Idempotency.Replay.{replay_ok, replay_error}
use my_go.Idempotency.Callers.{Request, Event, turn, sweep, initial, advance, step, run}
use my_go.Idempotency.Exclusion.{Apart, start_times, run-Apart}

abbrev read_byte : List ℕ → Fallible String ℕ
read_byte [] = err "no bytes"
read_byte (b ∷ bs) = ok b

abbrev byte_serializer : Serializer ℕ
byte_serializer = record { marshal = λ n. ok (n ∷ []); unmarshal = read_byte }

abbrev count_up : ℕ → ℕ × Fallible String ℕ
count_up w = (w + 1, ok 7)

abbrev break_down : ℕ → ℕ × Fallible String ℕ
break_down w = (w + 1, err "declined")

replay_ok_example :
    let ((s1, w1), r) =
      execute byte_serializer memory_storage 5 6 8 "order-1" (pos 100) count_up (empty, 0) in
    (w1 ≡ 1)
    × (r ≡ ok 7)
    × (execute byte_serializer memory_storage 90 91 92 "order-1" (pos 100) break_down (s1, w1)
        ≡ ((s1, w1), ok 7))
unfolding empty lookup
replay_ok_example =
    replay_ok byte_serializer "order-1" (pos 100) 5 6 8 count_up empty 0 1 refl refl 90 91 92
      break_down (omega arith) 7 (7 ∷ []) refl refl refl

replay_error_example :
    let ((s1, w1), r) =
      execute byte_serializer memory_storage 5 6 8 "order-1" (pos 100) break_down (empty, 0) in
    (w1 ≡ 1)
    × (r ≡ err (exec_failed "declined"))
    × (execute byte_serializer memory_storage 90 91 92 "order-1" (pos 100) count_up (s1, w1)
        ≡ ((s1, w1), err (previously_failed "declined")))
unfolding empty lookup
replay_error_example =
    replay_error byte_serializer "order-1" (pos 100) 5 6 8 break_down empty 0 1 refl refl 90 91 92
      count_up (omega arith) "declined" refl

abbrev same_order : ℕ → Request
same_order i = record { key = "order-1"; ttl = pos 10 }

-- Callers 0 and 1 both find no record; caller 0 marks first, and caller 1 is turned away. Caller 2
-- comes after the saved record has expired.
abbrev schedule : List (Event ℕ)
schedule =
    turn 0 1 (ok 7)
    ∷ turn 1 1 (ok 7)
    ∷ turn 0 2 (ok 7)
    ∷ turn 1 3 (ok 7)
    ∷ turn 0 5 (ok 7)
    ∷ turn 0 6 (ok 7)
    ∷ turn 2 17 (ok 8)
    ∷ sweep 18
    ∷ turn 2 21 (ok 8)
    ∷ []

schedule_starts :
    start_times "order-1" (run byte_serializer same_order initial schedule).starts ≡ 21 ∷ 2 ∷ []
unfolding run step advance empty lookup insert erase delete_if load try_mark_processing cleanup
    on_load on_mark save save_result
schedule_starts = refl

run-Apart_example :
    Apart (pos 10) (start_times "order-1" (run byte_serializer same_order initial schedule).starts)
run-Apart_example =
    run-Apart byte_serializer same_order "order-1" (pos 10) schedule (λ i. refl) (omega arith)
