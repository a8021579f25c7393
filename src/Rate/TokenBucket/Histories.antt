-- ===== src/Rate/TokenBucket/Histories.antt =====
-- No history takes a token bucket out of its range.
use my_go.Common.{
  ℤ, neg_part, ◌≤◌, ◌≡◌, refl, sym, subst, Time, String, List, [], Option, none, some, Bool, true,
  false, if◌then◌else◌, Bool-cases, str_eq, eq_iff, lookup, lookup-insert, arith, inl, inr,
}
use my_go.Rate.Types.{FloatOps, Config, State, IsValid, is_zero}
use my_go.Rate.Laws.{FloatLaws}
use my_go.Rate.Memory.{
  MemoryStorage, StorageEntry, memory_storage, live_state, is_expired, expiry, empty, get, set,
}
use my_go.Rate.History.{Event, InOrder, Requests, run, last_time}
use my_go.Rate.Buckets.{IsNatural, InRange, SoundAt, SoundAt-later, histories-Sound}
use my_go.Rate.TokenBucket.{found_or_full, refilled, execute}
use my_go.Rate.TokenBucket.Range.{refilled-InRange, taken-InRange, full-InRange}

module _ (fl : FloatOps) where
  open fl use {Float, of_int, sub, le}

  abbrev taken : Config → Time → ℤ → Option (StorageEntry Float) → StorageEntry Float
  taken cfg now n o = record {
    state = record st { tokens = sub (refilled fl cfg now st) (of_int n); last_update = now };
    expires_at = expiry now cfg.ttl;
  }
    where
      st : State Float
      st = found_or_full fl cfg now (live_state now o)

  -- The entry of a request's key after the request, by what its two tests say.
  abbrev by_tests :
      Config → Time → ℤ → Option (StorageEntry Float) → Bool → Bool → Option (StorageEntry Float)
  by_tests cfg now n o peek fits = if peek then o else if fits then some (taken cfg now n o) else o

  abbrev on_entry : Config → Time → ℤ → Option (StorageEntry Float) → Option (StorageEntry Float)
  on_entry cfg now n o =
      by_tests cfg now n o (is_zero n)
        (le (of_int n) (refilled fl cfg now (found_or_full fl cfg now (live_state now o))))

  lookup-execute :
      (now : Time) (key : String) (n : ℤ) (cfg : Config) (s : MemoryStorage Float) (j : String)
      → lookup j (execute fl (memory_storage fl) now key n cfg s).0.entries
        ≡ (if str_eq key j then on_entry cfg now n (lookup key s.entries) else lookup j s.entries)
  unfolding execute get set
  lookup-execute now key n cfg s j =
      ground (
        arith,
        eq_iff key j,
        lookup-insert key j (taken cfg now n (lookup key s.entries)) s.entries,
      )

  module _ (laws : FloatLaws fl) (cfg : Config) (valid : IsValid cfg) where
    -- The state that a request works on.
    found-Sound :
        (last now : Time) (o : Option (StorageEntry Float))
        → last ≤ now
        → SoundAt fl laws cfg last o
        → let st = found_or_full fl cfg now (live_state now o) in
          InRange fl laws cfg st.tokens × (st.last_update ≤ now)
    found-Sound last now none h k = (full-InRange fl laws cfg valid, omega arith)
    found-Sound last now (some e) h k = elim (Bool-cases (is_expired now e)) [
      | inl gone ↦ subst Found (sym gone) (full-InRange fl laws cfg valid, omega arith)
      | inr live ↦ subst Found (sym live) (k.in_range, omega (arith, k.past))
    ]
      where
        Found : Bool → Type 0
        Found expired =
            let st = found_or_full fl cfg now (if expired then none else some e.state) in
            InRange fl laws cfg st.tokens × (st.last_update ≤ now)

    SoundAt-on_entry :
        (last now : Time) (n : ℤ) (o : Option (StorageEntry Float))
        → last ≤ now
        → neg_part n ≡ 0
        → SoundAt fl laws cfg last o
        → SoundAt fl laws cfg now (on_entry cfg now n o)
    SoundAt-on_entry last now n o h sign k = go (is_zero n) _ refl
      where
        st : State Float
        st = found_or_full fl cfg now (live_state now o)

        go :
            (peek fits : Bool)
            → le (of_int n) (refilled fl cfg now st) ≡ fits
            → SoundAt fl laws cfg now (by_tests cfg now n o peek fits)
        go true fits e = SoundAt-later fl laws cfg last now o h k
        go false false e = SoundAt-later fl laws cfg last now o h k
        go false true e = record {
          in_range =
              let (r, past) = found-Sound last now o h k in
              taken-InRange fl laws cfg valid n _ sign
                (refilled-InRange fl laws cfg valid now st r past) e;
          past = omega arith;
        }

    -- After any history in the order of the clock, in which no request asks for a negative amount,
    -- the tokens of every stored bucket are a finite float from zero up to the burst. The
    -- configuration is valid, and the floats obey the laws of `FloatLaws`.
    pub tokens-InRange :
        (es : List Event) (key : String) (e : StorageEntry Float)
        → InOrder 0 es
        → Requests IsNatural es
        → lookup key
            (run
              (λ now k n. execute fl (memory_storage fl) now k n cfg)
              (record { storage = empty; grants = [] })
              es).storage.entries
          ≡ some e
        → InRange fl laws cfg e.state.tokens
    tokens-InRange es key e order natural found =
        (subst (SoundAt fl laws cfg (last_time 0 es)) found (
          histories-Sound fl laws cfg (λ now k n. execute fl (memory_storage fl) now k n cfg)
            (on_entry cfg) (λ now k n s j. lookup-execute now k n cfg s j) SoundAt-on_entry es order
            natural key)).in_range
