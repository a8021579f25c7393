-- ===== src/Idempotency/Memory.antt =====
-- The in-memory storage, internal/pkg/idempotency/storage_memory.go. Each method runs under the
-- mutex, so it is one step on the map, at one clock reading.
use my_go.Common.{
  ℕ, Time, Duration, String, List, [], Option, none, some, Bool, true, false, if◌then◌else◌,
  Fallible, ok, StringMap, lookup, insert, delete_if, after, before, add_time,
}
use my_go.Idempotency.{Record, Status, processing, completed, failed, Storage}

pub record MemoryRecord : Type 0 where
  pub entry : Record
  pub expires_at : Time

pub record MemoryStorage : Type 0 where
  pub records : StringMap MemoryRecord

unfoldable pub empty : MemoryStorage
empty = record { records = [] }

abbrev pub is_expired : Time → MemoryRecord → Bool
is_expired now mr = after now mr.expires_at

-- One round of the clean-up loop.
unfoldable pub cleanup : Time → MemoryStorage → MemoryStorage
cleanup now s = record { records = delete_if (is_expired now) s.records }

abbrev pub live_record : Time → Option MemoryRecord → Option Record
live_record now none = none
live_record now (some mr) = if is_expired now mr then none else some mr.entry

unfoldable pub load : Time → String → MemoryStorage → Fallible String (Option Record)
load now key s = ok (live_record now (lookup key s.records))

abbrev pub new_record : Time → String → Duration → Status → List ℕ → String → MemoryRecord
new_record now key ttl status result error_msg = record {
  entry = record {
    key = key;
    status = status;
    result = result;
    error_msg = error_msg;
    created_at = now;
    updated_at = now;
    ttl = ttl;
  };
  expires_at = add_time now ttl;
}

-- A key is taken while the clock is before the expiry of its record.
abbrev pub is_taken : Time → Option MemoryRecord → Bool
is_taken now none = false
is_taken now (some mr) = before now mr.expires_at

unfoldable pub try_mark_processing :
    Time → String → Duration → MemoryStorage → MemoryStorage × Fallible String Bool
try_mark_processing now key ttl s = if is_taken now (lookup key s.records) then (s, ok false) else (
  record { records = insert key (new_record now key ttl processing [] "") s.records },
  ok true,
)

unfoldable pub save_result :
    Time → String → List ℕ → Duration → MemoryStorage → MemoryStorage × Option String
save_result now key result ttl s =
    (record { records = insert key (new_record now key ttl completed result "") s.records }, none)

unfoldable pub save_error :
    Time → String → String → Duration → MemoryStorage → MemoryStorage × Option String
save_error now key message ttl s =
    (record { records = insert key (new_record now key ttl failed [] message) s.records }, none)

abbrev pub memory_storage : Storage MemoryStorage
memory_storage = record {
  load = load;
  try_mark_processing = try_mark_processing;
  save_result = save_result;
  save_error = save_error;
}
