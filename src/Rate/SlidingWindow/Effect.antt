-- ===== src/Rate/SlidingWindow/Effect.antt =====
-- What `execute` does to the entry of its key, on the in-memory storage.
use my_go.Common.{
  ℤ, pos, pos_part, ◌+ℤ◌, ◌-ℤ◌, ◌≡◌, ◌++◌, Time, String, List, Option, some, Bool, true, false,
  leb_ℤ, ltb_ℤ, if◌then◌else◌, str_eq, eq_iff, lookup, lookup-insert, int64, arith, length,
  replicate,
}
use my_go.Rate.Types.{FloatOps, Config, State, at_least_zero, is_zero}
use my_go.Rate.Memory.{MemoryStorage, StorageEntry, memory_storage, live_state, expiry, get, set}
use my_go.Rate.SlidingWindow.{found_or_empty, recent, window_start, execute}
use my_go.Rate.History.{is_allowed}

module _ (fl : FloatOps) where
  open fl use {Float}

  -- The timestamps that a request finds valid.
  abbrev pub valid_stamps : Config → Time → Option (StorageEntry Float) → List Time
  valid_stamps cfg now o =
      recent (window_start now cfg) (found_or_empty fl (live_state now o)).timestamps

  -- The entry that a request leaves when it is let through.
  abbrev pub logged : Config → Time → ℤ → Option (StorageEntry Float) → StorageEntry Float
  logged cfg now n o = record {
    state = record st { timestamps = valid_stamps cfg now o ++ replicate (pos_part n) now };
    expires_at = expiry now cfg.ttl;
  }
    where
      st : State Float
      st = found_or_empty fl (live_state now o)

  -- The entry after a request, and whether the request is let through.
  abbrev pub on_entry :
      Config → Time → ℤ → Option (StorageEntry Float) → Option (StorageEntry Float) × Bool
  on_entry cfg now n o =
      let count = length (valid_stamps cfg now o) in
      if is_zero n
      then (o, ltb_ℤ (pos 0) (at_least_zero (int64 (cfg.burst -ℤ pos count))))
      else if leb_ℤ (int64 (pos count +ℤ n)) cfg.burst
      then (some (logged cfg now n o), true)
      else (o, false)

  module _ (now : Time) (key : String) (n : ℤ) (cfg : Config) (s : MemoryStorage Float) where
    pub is_allowed-execute :
        is_allowed (execute fl (memory_storage fl) now key n cfg s).1
        ≡ (on_entry cfg now n (lookup key s.entries)).1
    unfolding execute get set
    is_allowed-execute = ground arith

    pub lookup-execute :
        (j : String)
        → lookup j (execute fl (memory_storage fl) now key n cfg s).0.entries ≡ (
            if str_eq key j
            then (on_entry cfg now n (lookup key s.entries)).0
            else lookup j s.entries)
    unfolding execute get set
    lookup-execute j = ground (
      arith,
      eq_iff key j,
      lookup-insert key j (logged cfg now n (lookup key s.entries)) s.entries,
    )
