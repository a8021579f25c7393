-- ===== src/Idempotency/Replay.antt =====
-- A second call with the same key gets the outcome of the first, and does not run its function.
use my_go.Common.{
  ℕ, ◌≤◌, ◌≡◌, Time, Duration, String, List, [], insert, none, false, Fallible, ok, err, lookup,
  lookup-insert, eq_iff, add_time, arith,
}
use my_go.Idempotency.{processing, completed, failed, previously_failed, exec_failed}
use my_go.Idempotency.Memory.{
  MemoryStorage, memory_storage, is_taken, live_record, new_record, load, try_mark_processing,
  save_result, save_error,
}
use my_go.Idempotency.Service.{Serializer, execute, on_load, on_mark, save}

module _ {A W : Type 0} (serializer : Serializer A) (key : String) (ttl : Duration)
    (t_load t_mark t_save : Time) (fn : W → W × Fallible String A) (s : MemoryStorage) (w w' : W)
    (unseen : live_record t_load (lookup key s.records) ≡ none)
    (untaken : is_taken t_mark (lookup key s.records) ≡ false) (u_load u_mark u_save : Time)
    (fn2 : W → W × Fallible String A) (kept : u_load ≤ add_time t_save ttl) where
  -- The storage while the function runs.
  abbrev marked : MemoryStorage
  marked = record { records = insert key (new_record t_mark key ttl processing [] "") s.records }

  -- On the in-memory storage, a call with a key of which no live record is stored runs its function.
  -- If that succeeds, with a result that the serializer takes there and back, the call returns the
  -- result; and a later call with the key, up to the expiry of the saved record, returns the same
  -- result and leaves the storage and the world as they were, whatever its function would do.
  pub replay_ok :
      (a : A) (bytes : List ℕ)
      → fn w ≡ (w', ok a)
      → serializer.marshal a ≡ ok bytes
      → serializer.unmarshal bytes ≡ ok a
      → let ((s1, w1), r) =
          execute serializer memory_storage t_load t_mark t_save key ttl fn (s, w) in
        (w1 ≡ w')
        × (r ≡ ok a)
        × (execute serializer memory_storage u_load u_mark u_save key ttl fn2 (s1, w1)
            ≡ ((s1, w1), ok a))
  unfolding execute on_load on_mark save load try_mark_processing save_result save_error
  replay_ok a bytes runs there back = ground (
    arith,
    eq_iff key key,
    lookup-insert key key (new_record t_save key ttl completed bytes "") marked.records,
  )

  -- If the function fails, the call returns its error, and a later call with the key returns that it
  -- failed before, with the same message, and leaves the storage and the world as they were.
  pub replay_error :
      (message : String)
      → fn w ≡ (w', err message)
      → let ((s1, w1), r) =
          execute serializer memory_storage t_load t_mark t_save key ttl fn (s, w) in
        (w1 ≡ w')
        × (r ≡ err (exec_failed message))
        × (execute serializer memory_storage u_load u_mark u_save key ttl fn2 (s1, w1)
            ≡ ((s1, w1), err (previously_failed message)))
  unfolding execute on_load on_mark save load try_mark_processing save_result save_error
  replay_error message runs = ground (
    arith,
    eq_iff key key,
    lookup-insert key key (new_record t_save key ttl failed [] message) marked.records,
  )
