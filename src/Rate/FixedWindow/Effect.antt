-- ===== src/Rate/FixedWindow/Effect.antt =====
-- What `execute` does to the entry of its key, on the in-memory storage.
use my_go.Common.{
  ℤ, pos, ◌+ℤ◌, ◌-ℤ◌, ◌≡◌, Time, String, Option, some, Bool, true, false, leb_ℤ, ltb_ℤ,
  if◌then◌else◌, str_eq, eq_iff, lookup, lookup-insert, truncate, int64, arith,
}
use my_go.Rate.Types.{FloatOps, Config, at_least_zero, is_zero}
use my_go.Rate.Memory.{MemoryStorage, StorageEntry, memory_storage, live_state, expiry, get, set}
use my_go.Rate.FixedWindow.{current, execute}
use my_go.Rate.History.{is_allowed}

module _ (fl : FloatOps) where
  open fl use {Float}

  -- The entry after a request, and whether the request is let through.
  abbrev pub on_entry :
      Config → Time → ℤ → Option (StorageEntry Float) → Option (StorageEntry Float) × Bool
  on_entry cfg now n o =
      let st = current fl (truncate now cfg.interval) (live_state now o) in
      let total = int64 (st.counter +ℤ n) in
      if is_zero n
      then (o, ltb_ℤ (pos 0) (at_least_zero (int64 (cfg.burst -ℤ st.counter))))
      else if leb_ℤ total cfg.burst
      then (
        some (record { state = record st { counter = total }; expires_at = expiry now cfg.ttl }),
        true,
      )
      else (o, false)

  module _ (now : Time) (key : String) (n : ℤ) (cfg : Config) (s : MemoryStorage Float) where
    pub is_allowed-execute :
        is_allowed (execute fl (memory_storage fl) now key n cfg s).1
        ≡ (on_entry cfg now n (lookup key s.entries)).1
    unfolding execute get set
    is_allowed-execute = ground arith

    pub lookup-execute :
        (j : String)
        → lookup j (execute fl (memory_storage fl) now key n cfg s).0.entries ≡ (
            if str_eq key j
            then (on_entry cfg now n (lookup key s.entries)).0
            else lookup j s.entries)
    unfolding execute get set
    lookup-execute j = ground (
      arith,
      eq_iff key j,
      lookup-insert key j
          (record {
            state =
                record (current fl (truncate now cfg.interval)
                  (live_state now (lookup key s.entries))) {
                    counter = int64 (
                        (current fl (truncate now cfg.interval)
                          (live_state now (lookup key s.entries))).counter
                        +ℤ n);
                  };
            expires_at = expiry now cfg.ttl;
          })
          s.entries,
    )
