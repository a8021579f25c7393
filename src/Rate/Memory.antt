-- ===== src/Rate/Memory.antt =====
-- The in-memory storage of the rate limiter, internal/pkg/rate/storage_memory.go. Each method runs
-- under the mutex, so it is one step on the map, at one clock reading.
use my_go.Common.{
  ℕ, ℤ, pos, ◌+ℤ◌, ◌+◌, ◌*◌, Time, Duration, String, [], Option, none, some, Bool, leb_ℤ, ltb_ℤ,
  if◌then◌else◌, Fallible, ok, StringMap, lookup, insert, erase, delete_if, after, add_time, second,
  int64, length,
}
use my_go.Rate.Types.{FloatOps, State, Storage, Error}

pub record StorageEntry (F : Type 0) : Type 0 where
  pub state : State F
  pub expires_at : Time

pub record MemoryStorage (F : Type 0) : Type 0 where
  pub entries : StringMap (StorageEntry F)

abbrev pub is_expired : {F : Type 0} → Time → StorageEntry F → Bool
is_expired now e = after now e.expires_at

-- `now.Add(ttl)`, or a day from now for a ttl that is not positive.
abbrev pub expiry : Time → Duration → Time
expiry now ttl = if leb_ℤ ttl (pos 0) then now + 24 * 3600 * second else add_time now ttl

-- The state behind an entry that has not expired.
abbrev pub live_state : {F : Type 0} → Time → Option (StorageEntry F) → Option (State F)
live_state now none = none
live_state now (some e) = if is_expired now e then none else some e.state

module _ {F : Type 0} where
  unfoldable pub empty : MemoryStorage F
  empty = record { entries = [] }

  -- States are values, so the copies that the source makes are the states themselves.
  unfoldable pub get : Time → String → MemoryStorage F → Option (State F) × Option Error
  get now key s = (live_state now (lookup key s.entries), none)

  unfoldable pub set :
      Time → String → State F → Duration → MemoryStorage F → MemoryStorage F × Option Error
  set now key st ttl s = (
    record { entries = insert key (record { state = st; expires_at = expiry now ttl }) s.entries },
    none,
  )

  unfoldable pub delete : String → MemoryStorage F → MemoryStorage F × Option Error
  delete key s = (record { entries = erase key s.entries }, none)

  unfoldable pub cleanup : Time → MemoryStorage F → MemoryStorage F
  cleanup now s = record { entries = delete_if (is_expired now) s.entries }

  unfoldable pub len : MemoryStorage F → ℕ
  len s = length s.entries

module _ (fl : FloatOps) where
  open fl use {Float, zero}

  -- The entry that `Increment` makes where none is live.
  abbrev pub counter_entry : Time → ℤ → Duration → StorageEntry Float
  counter_entry now n ttl = record {
    state = record {
      tokens = zero;
      last_update = now;
      counter = n;
      window_start = 0;
      timestamps = [];
    };
    expires_at = expiry now ttl;
  }

  -- What `Increment` leaves of a live entry.
  abbrev pub counted_entry : Time → ℤ → Duration → StorageEntry Float → StorageEntry Float
  counted_entry now n ttl e = record {
    state = record old { counter = int64 (old.counter +ℤ n); last_update = now };
    expires_at = if ltb_ℤ (pos 0) ttl then add_time now ttl else e.expires_at;
  }
    where
      open e use {state as old}

  abbrev pub incremented : Time → ℤ → Duration → Option (StorageEntry Float) → StorageEntry Float
  incremented now n ttl none = counter_entry now n ttl
  incremented now n ttl (some e) =
      if is_expired now e then counter_entry now n ttl else counted_entry now n ttl e

  unfoldable pub increment :
      Time → String → ℤ → Duration → MemoryStorage Float → MemoryStorage Float × Fallible Error ℤ
  increment now key n ttl s =
      let e = incremented now n ttl (lookup key s.entries) in
      (record { entries = insert key e s.entries }, ok e.state.counter)

  abbrev pub memory_storage : Storage Float (MemoryStorage Float)
  memory_storage = record { get = get; set = set; increment = increment; delete = delete }
