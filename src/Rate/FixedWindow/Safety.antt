-- ===== src/Rate/FixedWindow/Safety.antt =====
-- What the entry of a key accounts for, kept by every request and every sweep.
use my_go.Common.{
  ℕ, ℤ, pos, pos_part, neg_part, ◌+ℤ◌, ◌≤ℤ◌, ◌<ℤ◌, ◌+◌, ◌≤◌, ◌<◌, ◌≡◌, ◌⊎◌, Time, Duration, String,
  List, [], ◌∷◌, Option, none, some, ◌&&◌, leb, ◌==◌, if◌then◌else◌, str_eq, eq_iff, lookup,
  truncate, int64, int64_of_IsInt64, max_int64, arith, lookup-delete_if,
}
use my_go.Rate.Types.{FloatOps, Config}
use my_go.Rate.Memory.{StorageEntry, memory_storage, live_state, is_expired, cleanup}
use my_go.Rate.History.{Call, request, sweep, World, step}
use my_go.Rate.FixedWindow.{current, execute}
use my_go.Rate.FixedWindow.Windows.{truncate-le, lt-truncate, truncate_unique}
use my_go.Rate.FixedWindow.Effect.{on_entry, is_allowed-execute, lookup-execute}

-- How much the calls of one key were granted in the window that begins at `start`.
abbrev pub granted_in : Duration → String → Time → List Call → ℕ
granted_in d key start [] = 0
granted_in d key start (c ∷ gs) =
    (if str_eq c.key key && truncate c.at d == start then pos_part c.amount else 0)
    + granted_in d key start gs

-- An entry never expires within the window that it was written in.
abbrev pub KeepsWindow : Config → Type 0
KeepsWindow cfg = cfg.interval ≤ℤ cfg.ttl

-- A request for no negative amount, small enough that the counter does not pass the int64 range.
abbrev pub IsModest : Config → Call → Type 0
IsModest cfg c = (neg_part c.amount ≡ 0) × (pos_part c.amount + pos_part cfg.burst ≤ max_int64)

module _ (fl : FloatOps) where
  open fl use {Float}

  -- The entry of a key accounts for `g` granted in the window from `start` on: the entry is from an
  -- earlier window, or its counter is `g` and it outlives the window.
  abbrev pub Covers : Config → Time → Time → Option (StorageEntry Float) → ℕ → Type 0
  Covers cfg start last none g = g ≡ 0
  Covers cfg start last (some e) g =
      (neg_part e.state.counter ≡ 0)
      × (pos_part e.state.counter ≤ pos_part cfg.burst)
      × (((e.state.window_start < start) × (g ≡ 0))
          ⊎ ((e.state.window_start ≡ start)
              × (start ≤ last)
              × (g ≡ pos_part e.state.counter)
              × (start + pos_part cfg.interval ≤ e.expires_at)))

  module _ (cfg : Config) (start last now : Time) (n : ℤ) (positive : pos 0 <ℤ cfg.interval)
      (keeps : KeepsWindow cfg) (burst_positive : pos 0 <ℤ cfg.burst) (order : last ≤ now)
      (inside : (truncate now cfg.interval ≡ start) ⊎ (now < start)) where
    -- The state that a request works on.
    Covers-current :
        (o : Option (StorageEntry Float)) (g : ℕ)
        → Covers cfg start last o g
        → let st = current fl (truncate now cfg.interval) (live_state now o) in
          (neg_part st.counter ≡ 0)
          × (pos_part st.counter ≤ pos_part cfg.burst)
          × (((st.window_start ≡ start) × (g ≡ pos_part st.counter))
              ⊎ ((now < start) × (st.window_start < start) × (g ≡ 0)))
    Covers-current none g h = ground (arith, truncate-le now cfg.interval)
    Covers-current (some e) g h =
        ground (arith, lt-truncate now cfg.interval positive, truncate-le now cfg.interval)

    module _ (sign : neg_part n ≡ 0) (small : pos_part n + pos_part cfg.burst ≤ max_int64) where
      -- The sum is exact.
      int64_total :
          (c : ℤ) → neg_part c ≡ 0 → pos_part c ≤ pos_part cfg.burst → int64 (c +ℤ n) ≡ c +ℤ n
      unfolding ◌+ℤ◌
      int64_total c h k = int64_of_IsInt64 (c +ℤ n) (ground arith)

      -- One request, inside the window or before it.
      Covers-on_entry :
          (o : Option (StorageEntry Float)) (g : ℕ)
          → Covers cfg start last o g
          → g ≤ pos_part cfg.burst
          → let (o', allowed) = on_entry fl cfg now n o in
            let g' =
              (if allowed && truncate now cfg.interval == start then pos_part n else 0) + g in
            Covers cfg start now o' g' × (g' ≤ pos_part cfg.burst)
      unfolding ◌+ℤ◌
      Covers-on_entry o g h below =
          let st = current fl (truncate now cfg.interval) (live_state now o) in
          let facts = Covers-current o g h in
          ground
            (arith, facts, int64_total st.counter facts.0 facts.1, truncate-le now cfg.interval)

      -- In its own window a request is let through exactly if it fits.
      pub allowed-on_entry :
          (o : Option (StorageEntry Float)) (g : ℕ)
          → Covers cfg start last o g
          → truncate now cfg.interval ≡ start
          → 0 < pos_part n
          → (on_entry fl cfg now n o).1 ≡ leb (g + pos_part n) (pos_part cfg.burst)
      unfolding ◌+ℤ◌
      allowed-on_entry o g h same some_n =
          let st = current fl (truncate now cfg.interval) (live_state now o) in
          let facts = Covers-current o g h in
          ground
            (arith, facts, int64_total st.counter facts.0 facts.1, truncate-le now cfg.interval)

  -- What a history keeps for one key and one window.
  pub record Accounted (cfg : Config) (key : String) (start last : Time) (w : World Float)
      : Type 0 where
    pub total_le : granted_in cfg.interval key start w.grants ≤ pos_part cfg.burst
    pub begun : (granted_in cfg.interval key start w.grants ≡ 0) ⊎ (start ≤ last)
    pub covered :
        (start + pos_part cfg.interval ≤ last)
        ⊎ Covers cfg start last
            (lookup key w.storage.entries)
            (granted_in cfg.interval key start w.grants)

  module _ (cfg : Config) (key : String) (t : Time) (positive : pos 0 <ℤ cfg.interval)
      (keeps : KeepsWindow cfg) (burst_positive : pos 0 <ℤ cfg.burst) where
    abbrev start : Time
    start = truncate t cfg.interval

    -- A time that is not past the window lies in it or before it.
    placed :
        (now : Time)
        → now < start + pos_part cfg.interval
        → (truncate now cfg.interval ≡ start) ⊎ (now < start)
    placed now h = ground (arith, truncate_unique now t cfg.interval positive)

    pub request-Accounted :
        (last : Time) (w : World Float) (c : Call)
        → Accounted cfg key start last w
        → last ≤ c.at
        → IsModest cfg c
        → Accounted cfg key start c.at
            (step (λ now k n. execute fl (memory_storage fl) now k n cfg) w (request c))
    unfolding step
    request-Accounted last w c h o q = ground (
      arith,
      is_allowed-execute fl c.at c.key c.amount cfg w.storage,
      lookup-execute fl c.at c.key c.amount cfg w.storage key,
      eq_iff c.key key,
      truncate-le c.at cfg.interval,
      lt-truncate c.at cfg.interval positive,
      placed c.at,
      λ (p : (truncate c.at cfg.interval ≡ start) ⊎ (c.at < start)).
          Covers-on_entry cfg start last c.at c.amount positive keeps burst_positive o p q.0 q.1
            (lookup key w.storage.entries) (granted_in cfg.interval key start w.grants),
    )

    pub sweep-Accounted :
        (last u : Time) (w : World Float)
        → Accounted cfg key start last w
        → last ≤ u
        → Accounted cfg key start u
            (step (λ now k n. execute fl (memory_storage fl) now k n cfg) w (sweep u))
    unfolding step cleanup
    sweep-Accounted last u w h o =
        ground (arith, lookup-delete_if (is_expired u) key w.storage.entries)
