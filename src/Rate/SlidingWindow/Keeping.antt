-- ===== src/Rate/SlidingWindow/Keeping.antt =====
-- The log of a key and the record of its grants, kept together by every request and every sweep.
use my_go.Common.{
  ℕ, ℤ, pos, pos_part, neg_part, ◌<ℤ◌, ◌+◌, ◌≤◌, ◌≡◌, refl, sym, subst, inl, inr, Time, String,
  Option, none, some, Bool, ◌&&◌, if◌then◌else◌, Bool-cases, str_eq, eq_iff, lookup,
  lookup-delete_if, drop_if, after, max_int64, arith, Fallible,
}
use mathlib.Core.Path.{fun_ext}
use my_go.Rate.Types.{FloatOps, Config, Result, Error}
use my_go.Rate.Memory.{MemoryStorage, StorageEntry, memory_storage, is_expired, cleanup}
use my_go.Rate.History.{Call, request, sweep, World, step}
use my_go.Rate.FixedWindow.Safety.{KeepsWindow, IsModest}
use my_go.Rate.SlidingWindow.{execute, window_start}
use my_go.Rate.SlidingWindow.Effect.{on_entry, is_allowed-execute, lookup-execute}
use my_go.Rate.SlidingWindow.Safety.{
  granted_after, Logs, on_entry-cases, Logs-logged, Logs-unchanged, window_start-eq,
  later_grants_le,
}

module _ (fl : FloatOps) where
  open fl use {Float}

  -- The entry of a key, and the amounts that it was granted after each cut.
  pub record Keeps (cfg : Config) (last : Time) (o : Option (StorageEntry Float)) (g : Time → ℕ)
      : Type 0 where
    pub settled : (cut : Time) → last ≤ cut → g cut ≡ 0
    pub bounded : (cut : Time) → last ≤ cut + pos_part cfg.interval → g cut ≤ pos_part cfg.burst
    pub logs : Logs fl cfg last o g

  Keeps-congr :
      (cfg : Config) (last : Time) {o o' : Option (StorageEntry Float)} {g g' : Time → ℕ}
      → o ≡ o'
      → ((cut : Time) → g cut ≡ g' cut)
      → Keeps cfg last o g
      → Keeps cfg last o' g'
  Keeps-congr cfg last {o} {o'} {g} {g'} p q k =
      subst (λ x. Keeps cfg last x g') p (subst (λ f. Keeps cfg last o f) (fun_ext q) k)

  module _ (cfg : Config) (last now : Time) (g : Time → ℕ) (positive : pos 0 <ℤ cfg.interval)
      (order : last ≤ now) where
    -- The entry may expire and be swept, as its log is out of date by then.
    Keeps-swept :
        (o : Option (StorageEntry Float))
        → Keeps cfg last o g
        → Keeps cfg now (drop_if (is_expired now) o) g
    Keeps-swept none k = record {
      settled = λ cut le. ground (arith, k.settled cut);
      bounded = λ cut le. ground (arith, k.bounded cut);
      logs = λ cut le. ground (arith, k.logs cut);
    }
    Keeps-swept (some e) k = record {
      settled = λ cut le. ground (arith, k.settled cut);
      bounded = λ cut le. ground (arith, k.bounded cut);
      logs = elim (Bool-cases (is_expired now e)) [
        | inl gone ↦
            subst (λ b. Logs fl cfg now (if b then none else some e) g) (sym gone)
              (λ cut le. ground (arith, k.logs.1 cut))
        | inr live ↦
            subst (λ b. Logs fl cfg now (if b then none else some e) g) (sym live)
              (λ cut le. ground (arith, k.logs.0 cut), λ cut le. ground (arith, k.logs.1 cut))
      ];
    }

    Keeps-later : (o : Option (StorageEntry Float)) → Keeps cfg last o g → Keeps cfg now o g
    Keeps-later none k = record {
      settled = λ cut le. ground (arith, k.settled cut);
      bounded = λ cut le. ground (arith, k.bounded cut);
      logs = λ cut le. ground (arith, k.logs cut);
    }
    Keeps-later (some e) k = record {
      settled = λ cut le. ground (arith, k.settled cut);
      bounded = λ cut le. ground (arith, k.bounded cut);
      logs = (λ cut le. ground (arith, k.logs.0 cut), λ cut le. ground (arith, k.logs.1 cut));
    }

    module _ (n : ℤ) (o : Option (StorageEntry Float)) (keeps : KeepsWindow cfg)
        (burst_positive : pos 0 <ℤ cfg.burst) (sign : neg_part n ≡ 0)
        (small : pos_part n + pos_part cfg.burst ≤ max_int64) (k : Keeps cfg last o g) where
      bound_now : g (window_start now cfg) ≤ pos_part cfg.burst
      bound_now =
          k.bounded (window_start now cfg)
            (omega (arith, window_start-eq fl cfg last now positive order))

      -- What holds when a request has come to this entry and this decision.
      abbrev KeepsAfter : Option (StorageEntry Float) × Bool → Type 0
      KeepsAfter r =
          Keeps cfg now r.0 (λ cut. (if r.1 && after now cut then pos_part n else 0) + g cut)

      Keeps-on_entry : KeepsAfter (on_entry fl cfg now n o)
      Keeps-on_entry =
          elim (on_entry-cases fl cfg last now positive order keeps n sign small o g k.logs
            burst_positive bound_now) [
              | inl (allowed, e, z) ↦ subst KeepsAfter (sym e) (record {
                settled = λ cut le. ground (arith, k.settled cut);
                bounded = λ cut le. ground (arith, k.bounded cut);
                logs = Logs-unchanged fl cfg last now o g allowed (pos_part n) order z k.logs;
              })
              | inr (e, fits) ↦ subst KeepsAfter (sym e) (record {
                settled = λ cut le. ground (arith, k.settled cut);
                bounded = λ cut le.
                    ground
                      (arith, later_grants_le fl cfg last now positive order o g cut k.logs le);
                logs =
                    Logs-logged fl cfg last now positive order keeps n sign small o g k.logs
                      burst_positive bound_now k.settled;
              })
            ]

  module _ (cfg : Config) (key : String) (positive : pos 0 <ℤ cfg.interval)
      (keeps : KeepsWindow cfg) (burst_positive : pos 0 <ℤ cfg.burst) where
    -- What a history keeps for one key.
    abbrev pub Logged : Time → World Float → Type 0
    Logged last w =
        Keeps cfg last (lookup key w.storage.entries) (λ cut. granted_after key cut w.grants)

    abbrev pub execute_with :
        Time → String → ℤ → MemoryStorage Float → MemoryStorage Float × Fallible Error Result
    execute_with now k n = execute fl (memory_storage fl) now k n cfg

    pub request-Logged :
        (last : Time) (w : World Float) (c : Call)
        → Logged last w
        → last ≤ c.at
        → IsModest cfg c
        → Logged c.at (step execute_with w (request c))
    unfolding step
    request-Logged last w c k o q = elim (Bool-cases (str_eq c.key key)) [
      | inl same ↦
          Keeps-congr cfg c.at
            (ground
              (arith, lookup-execute fl c.at c.key c.amount cfg w.storage key, eq_iff c.key key))
            (λ cut.
              ground
                (arith, is_allowed-execute fl c.at c.key c.amount cfg w.storage, eq_iff c.key key))
            (Keeps-on_entry cfg last c.at (λ cut. granted_after key cut w.grants) positive o
              c.amount (lookup key w.storage.entries) keeps burst_positive q.0 q.1 k)
      | inr other ↦
          Keeps-congr cfg c.at
            (ground (arith, lookup-execute fl c.at c.key c.amount cfg w.storage key))
            (λ cut. ground arith)
            (Keeps-later cfg last c.at (λ cut. granted_after key cut w.grants) positive o
              (lookup key w.storage.entries) k)
    ]

    pub sweep-Logged :
        (last u : Time) (w : World Float)
        → Logged last w
        → last ≤ u
        → Logged u (step execute_with w (sweep u))
    unfolding step cleanup
    sweep-Logged last u w k o =
        Keeps-congr cfg u (sym (lookup-delete_if (is_expired u) key w.storage.entries))
          (λ cut. refl)
          (Keeps-swept cfg last u (λ cut. granted_after key cut w.grants) positive o
            (lookup key w.storage.entries) k)
