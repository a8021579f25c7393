-- ===== src/Rate/Limiter/Reservations.antt =====
-- Cancelling a reservation under the fixed window strategy, on the in-memory storage.
use my_go.Common.{
  ℕ, pos, pos_part, ◌+ℤ◌, ◌<ℤ◌, ◌+◌, ◌≤◌, ◌<◌, ◌≡◌, Time, String, some, true, false, ok, eq_iff,
  lookup, lookup-insert, truncate, int64, int64_of_IsInt64, max_int64, arith, ap, ◌∙◌,
}
use my_go.Rate.Types.{FloatOps, Config}
use my_go.Rate.Memory.{
  MemoryStorage, StorageEntry, memory_storage, get, set, increment, counted_entry,
}
use my_go.Rate.FixedWindow
use my_go.Rate.FixedWindow.{current, fresh}
use my_go.Rate.FixedWindow.Windows.{lt-truncate}
use my_go.Rate.Limiter.{LimiterImpl, fixed_window, execute, allow_n, reserve_n, cancel}

module _ (fl : FloatOps) (cfg : Config) (now : Time) (key : String) (c k : ℕ)
    (s : MemoryStorage fl.Float) (e : StorageEntry fl.Float) (positive : pos 0 <ℤ cfg.interval)
    (stored : lookup key s.entries ≡ some e) (live : now ≤ e.expires_at)
    (same_window : e.state.window_start ≡ truncate now cfg.interval)
    (counter : e.state.counter ≡ pos c) (over : pos_part cfg.burst < c + k)
    (small : c + k ≤ max_int64) (some_k : 0 < k) where
  abbrev limiter : LimiterImpl
  limiter = record { config = cfg; executor = fixed_window }

  -- A sum in the range is exact.
  exact_sum : (a b : ℕ) → a + b ≤ max_int64 → int64 (pos a +ℤ pos b) ≡ pos (a + b)
  unfolding ◌+ℤ◌
  exact_sum a b h =
      let sum : (pos a +ℤ pos b) ≡ pos (a + b) = ground arith in
      ap int64 sum ∙ int64_of_IsInt64 (pos (a + b)) (omega arith)

  refused_reservation :
      let (s', (r, error)) = reserve_n fl (memory_storage fl) limiter now key (pos k) s in
      (s' ≡ s) × (r.is_ok ≡ false) × (r.cancels ≡ some (key, pos k))
  unfolding reserve_n execute FixedWindow.execute get set
  refused_reservation = ground (arith, exact_sum c k small, lt-truncate now cfg.interval positive)

  -- The storage after the reservation is made and cancelled.
  abbrev pub cancelled : MemoryStorage fl.Float
  cancelled =
      let (s', (r, error)) = reserve_n fl (memory_storage fl) limiter now key (pos k) s in
      cancel fl (memory_storage fl) limiter now r s'

  lookup-cancelled : lookup key cancelled.entries ≡ some (counted_entry fl now (pos k) cfg.ttl e)
  unfolding cancel increment
  lookup-cancelled = ground (
    arith,
    refused_reservation,
    eq_iff key key,
    lookup-insert key key (counted_entry fl now (pos k) cfg.ttl e) s.entries,
  )

  -- A reservation of `k` that does not fit is refused; cancelling it does not return `k` tokens to
  -- the window but takes them: a request for `m`, which was let through without the reservation, is
  -- refused after it. That is so for every live entry of the current window, with a counter `c` and
  -- sums within the int64 range.
  pub cancel_blocks :
      (m : ℕ)
      → 0 < m
      → c + m ≤ pos_part cfg.burst
      → c + k + m ≤ max_int64
      → ((reserve_n fl (memory_storage fl) limiter now key (pos k) s).1.0.is_ok ≡ false)
        × ((allow_n fl (memory_storage fl) limiter now key (pos m) s).1 ≡ ok true)
        × ((allow_n fl (memory_storage fl) limiter now key (pos m) cancelled).1 ≡ ok false)
  unfolding allow_n execute FixedWindow.execute get set
  cancel_blocks m some_m fits in_range = (
    refused_reservation.1,
    ground (arith, exact_sum c m),
    ground (arith, lookup-cancelled, exact_sum c k small, exact_sum (c + k) m in_range),
  )
