-- ===== src/Rate/SlidingWindow/Safety.antt =====
-- What one request does to the log of its key.
use native.Mathlib.Nat.{le_refl}
use my_go.Common.{
  ℕ, ℤ, pos, pos_part, neg_part, ◌+ℤ◌, ◌-ℤ◌, ◌<ℤ◌, ◌+◌, ◌-◌, ◌≤◌, ◌<◌, ◌≡◌, sym, ◌∙◌, refl, ◌⊎◌,
  inl, inr, Time, String, List, [], ◌∷◌, Option, none, some, Bool, true, false, ◌&&◌, leb,
  Bool-cases, if◌then◌else◌, str_eq, after, int64, int64_of_IsInt64, max_int64, arith, length,
  replicate,
}
use my_go.Rate.Types.{FloatOps, Config, is_zero}
use my_go.Rate.Memory.{StorageEntry, live_state}
use my_go.Rate.History.{Call}
use my_go.Rate.FixedWindow.Safety.{KeepsWindow}
use my_go.Rate.SlidingWindow.{found_or_empty, window_start}
use my_go.Rate.SlidingWindow.Stamps.{
  count_after, count_after-append, count_after-replicate, count_after-recent, length-recent,
  count_after-le-length,
}
use my_go.Rate.SlidingWindow.Effect.{valid_stamps, logged, on_entry}

-- How much the calls of one key were granted after a cut.
abbrev pub granted_after : String → Time → List Call → ℕ
granted_after key cut [] = 0
granted_after key cut (c ∷ gs) =
    (if str_eq c.key key && after c.at cut then pos_part c.amount else 0) + granted_after key cut gs

module _ (fl : FloatOps) where
  open fl use {Float}

  -- The entry logs all that was granted in the last interval, and does not expire before that
  -- has passed. `g` gives the amount granted after a cut.
  abbrev pub Logs : Config → Time → Option (StorageEntry Float) → (Time → ℕ) → Type 0
  Logs cfg last none g = (cut : Time) → last ≤ cut + pos_part cfg.interval → g cut ≡ 0
  Logs cfg last (some e) g =
      ((cut : Time)
        → last ≤ cut + pos_part cfg.interval
        → count_after cut e.state.timestamps ≡ g cut)
      × ((cut : Time) → e.expires_at ≤ cut + pos_part cfg.interval → g cut ≡ 0)

  -- What grants nothing leaves the log as it was.
  pub Logs-unchanged :
      (cfg : Config) (last now : Time) (o : Option (StorageEntry Float)) (g : Time → ℕ)
      (allowed : Bool) (n : ℕ)
      → last ≤ now
      → (allowed ≡ false) ⊎ (n ≡ 0)
      → Logs cfg last o g
      → Logs cfg now o (λ cut. (if allowed && after now cut then n else 0) + g cut)
  Logs-unchanged cfg last now none g allowed n order z h = λ cut le. ground (arith, h cut)
  Logs-unchanged cfg last now (some e) g allowed n order z h =
      (λ cut le. ground (arith, h.0 cut), λ cut le. ground (arith, h.1 cut))

  module _ (cfg : Config) (last now : Time) (positive : pos 0 <ℤ cfg.interval)
      (order : last ≤ now) where
    pub window_start-eq : window_start now cfg ≡ now - pos_part cfg.interval
    unfolding ◌-ℤ◌
    window_start-eq = ground arith

    -- What a request finds valid is what was granted since.
    count_valid :
        (o : Option (StorageEntry Float)) (g : Time → ℕ) (cut : Time)
        → Logs cfg last o g
        → window_start now cfg ≤ cut
        → count_after cut (valid_stamps fl cfg now o) ≡ g cut
    unfolding count_after
    count_valid none g cut h k = ground (arith, window_start-eq, h cut)
    count_valid (some e) g cut h k = ground (
      arith,
      window_start-eq,
      h.0 cut,
      h.1 cut,
      count_after-recent cut (window_start now cfg) e.state.timestamps k,
    )

    length_valid :
        (o : Option (StorageEntry Float)) (g : Time → ℕ)
        → Logs cfg last o g
        → length (valid_stamps fl cfg now o) ≡ g (window_start now cfg)
    length_valid o g h =
        length-recent (window_start now cfg) (found_or_empty fl (live_state now o)).timestamps
        ∙ sym (
            count_after-recent (window_start now cfg) (window_start now cfg)
              (found_or_empty fl (live_state now o)).timestamps (le_refl (window_start now cfg)))
        ∙ count_valid o g (window_start now cfg) h (le_refl (window_start now cfg))

    pub later_grants_le :
        (o : Option (StorageEntry Float)) (g : Time → ℕ) (cut : Time)
        → Logs cfg last o g
        → now ≤ cut + pos_part cfg.interval
        → g cut ≤ g (window_start now cfg)
    later_grants_le o g cut h le = omega (
      arith,
      count_valid o g cut h (omega (arith, window_start-eq)),
      length_valid o g h,
      count_after-le-length cut (valid_stamps fl cfg now o),
    )

    module _ (keeps : KeepsWindow cfg) (n : ℤ) (sign : neg_part n ≡ 0)
        (small : pos_part n + pos_part cfg.burst ≤ max_int64) (o : Option (StorageEntry Float))
        (g : Time → ℕ) (h : Logs cfg last o g) (burst_positive : pos 0 <ℤ cfg.burst)
        (bound : g (window_start now cfg) ≤ pos_part cfg.burst) where
      -- The sum is exact.
      int64_total :
          int64 (pos (length (valid_stamps fl cfg now o)) +ℤ n)
          ≡ pos (g (window_start now cfg) + pos_part n)
      unfolding ◌+ℤ◌
      int64_total =
          rw (length_valid o g h)
            (int64_of_IsInt64 (pos (g (window_start now cfg)) +ℤ n) (ground arith) ∙ ground arith)

      -- A request is let through exactly if it fits beside what the last interval granted.
      pub allowed-on_entry :
          0 < pos_part n
          → (on_entry fl cfg now n o).1
            ≡ leb (g (window_start now cfg) + pos_part n) (pos_part cfg.burst)
      allowed-on_entry some_n = ground (arith, int64_total)

      -- A request leaves the entry, and grants nothing; or it fits, and is logged.
      pub on_entry-cases :
          ((allowed : Bool) × (on_entry fl cfg now n o ≡ (o, allowed))
            × ((allowed ≡ false) ⊎ (pos_part n ≡ 0)))
          ⊎ ((on_entry fl cfg now n o ≡ (some (logged fl cfg now n o), true))
              × (g (window_start now cfg) + pos_part n ≤ pos_part cfg.burst))
      on_entry-cases = elim (Bool-cases (is_zero n)) [
        | inl zero_n ↦ inl ((on_entry fl cfg now n o).1, ground arith, inr (ground arith))
        | inr some_n ↦
            elim (Bool-cases (leb (g (window_start now cfg) + pos_part n) (pos_part cfg.burst))) [
              | inl fits ↦ inr (ground (arith, int64_total), ground arith)
              | inr over ↦ inl (false, ground (arith, int64_total), inl refl)
            ]
      ]

      pub Logs-logged :
          ((cut : Time) → last ≤ cut → g cut ≡ 0)
          → Logs cfg now
              (some (logged fl cfg now n o))
              (λ cut. (if after now cut then pos_part n else 0) + g cut)
      Logs-logged settled = (
        λ cut le.
            count_after-append cut (valid_stamps fl cfg now o) (replicate (pos_part n) now)
            ∙ ground (
              arith,
              window_start-eq,
              count_valid o g cut h,
              count_after-replicate cut (pos_part n) now,
            ),
        λ cut le. ground (arith, settled cut),
      )
