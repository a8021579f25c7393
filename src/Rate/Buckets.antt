-- ===== src/Rate/Buckets.antt =====
-- What the token bucket and the leaky bucket share: the range of the float that an entry holds, and
-- how it is kept through a history, if a request keeps it at the entry of its key.
use my_go.Common.{
  ℤ, pos, negsuc, pos_part, neg_part, suc, zero, ◌<ℤ◌, ◌≤◌, ◌≡◌, sym, subst, Time, Duration, String,
  List, [], Option, none, some, Bool, true, false, if◌then◌else◌, str_eq, lookup, lookup-delete_if,
  drop_if, sub_time, arith, Fallible,
}
use my_go.Rate.Types.{FloatOps, Config, Result, Error}
use my_go.Rate.Laws.{FloatLaws}
use my_go.Rate.Memory.{MemoryStorage, StorageEntry, is_expired, empty, cleanup}
use my_go.Rate.History.{
  Call, Event, request, sweep, InOrder, Requests, World, step, run, run_inv, last_time,
}

-- A request for no negative amount.
abbrev pub IsNatural : Call → Type 0
IsNatural c = neg_part c.amount ≡ 0

module _ (fl : FloatOps) (laws : FloatLaws fl) where
  open fl use {Float, of_int, seconds, add, sub, mul, div, min, le}
  open laws use {IsFinite}

  -- The tokens of a bucket are a finite float from zero up to the burst.
  pub record InRange (cfg : Config) (tokens : Float) : Type 0 where
    pub finite : IsFinite tokens
    pub nonneg : le fl.zero tokens ≡ true
    pub within : le tokens (of_int cfg.burst) ≡ true

  pub of_int_natural : (n : ℤ) → neg_part n ≡ 0 → le fl.zero (of_int n) ≡ true
  of_int_natural (pos n) h = laws.of_int_nonneg n
  of_int_natural (negsuc n) h = absurd (omega arith)

  pub of_int_positive : (n : ℤ) → pos 0 <ℤ n → le fl.zero (of_int n) ≡ true
  of_int_positive (pos n) h = laws.of_int_nonneg n
  of_int_positive (negsuc n) h = absurd (omega arith)

  pub seconds_interval : (d : Duration) → pos 0 <ℤ d → le (seconds d) fl.zero ≡ false
  seconds_interval (pos zero) h = absurd (omega arith)
  seconds_interval (pos (suc n)) h = laws.seconds_positive n
  seconds_interval (negsuc n) h = absurd (omega arith)

  pub seconds_elapsed :
      (now then' : Time) → then' ≤ now → le fl.zero (seconds (sub_time now then')) ≡ true
  seconds_elapsed now then' h = ground (arith, laws.seconds_nonneg (pos_part (sub_time now then')))

  module _ (cfg : Config) where
    -- An entry in range, last written no later than the clock shows.
    pub record Sound (last : Time) (e : StorageEntry Float) : Type 0 where
      pub in_range : InRange cfg e.state.tokens
      pub past : e.state.last_update ≤ last

    abbrev pub SoundAt : Time → Option (StorageEntry Float) → Type 0
    SoundAt last none = Unit {0}
    SoundAt last (some e) = Sound last e

    pub SoundAt-later :
        (last now : Time) (o : Option (StorageEntry Float))
        → last ≤ now
        → SoundAt last o
        → SoundAt now o
    SoundAt-later last now none h k = tt
    SoundAt-later last now (some e) h k = record {
      in_range = k.in_range;
      past = omega (arith, k.past);
    }

    abbrev AllSound : Time → World Float → Type 0
    AllSound last w = (key : String) → SoundAt last (lookup key w.storage.entries)

    module _
        (execute : Time
          → String
          → ℤ
          → MemoryStorage Float
          → MemoryStorage Float × Fallible Error Result)
        (on_entry : Time → ℤ → Option (StorageEntry Float) → Option (StorageEntry Float))
        (effect : (now : Time) (key : String) (n : ℤ) (s : MemoryStorage Float) (j : String)
          → lookup j (execute now key n s).0.entries
            ≡ (if str_eq key j then on_entry now n (lookup key s.entries) else lookup j s.entries))
        (keeps : (last now : Time) (n : ℤ) (o : Option (StorageEntry Float))
          → last ≤ now
          → neg_part n ≡ 0
          → SoundAt last o
          → SoundAt now (on_entry now n o)) where
      request-AllSound :
          (last : Time) (w : World Float) (c : Call)
          → AllSound last w
          → last ≤ c.at
          → IsNatural c
          → AllSound c.at (step execute w (request c))
      unfolding step
      request-AllSound last w c k h sign key =
          subst (SoundAt c.at) (sym (effect c.at c.key c.amount w.storage key))
            (go (str_eq c.key key))
        where
          go :
              (same : Bool)
              → SoundAt c.at (
                  if same
                  then on_entry c.at c.amount (lookup c.key w.storage.entries)
                  else lookup key w.storage.entries)
          go true = keeps last c.at c.amount _ h sign (k c.key)
          go false = SoundAt-later last c.at _ h (k key)

      sweep-AllSound :
          (last u : Time) (w : World Float)
          → AllSound last w
          → last ≤ u
          → AllSound u (step execute w (sweep u))
      unfolding step cleanup
      sweep-AllSound last u w k h key =
          subst (SoundAt u) (sym (lookup-delete_if (is_expired u) key w.storage.entries))
            (go (lookup key w.storage.entries) (k key))
        where
          go :
              (o : Option (StorageEntry Float))
              → SoundAt last o
              → SoundAt u (drop_if (is_expired u) o)
          go none s = tt
          go (some e) s = swept (is_expired u e)
            where
              swept : (b : Bool) → SoundAt u (if b then none else some e)
              swept true = tt
              swept false = SoundAt-later last u (some e) h s

      pub histories-Sound :
          (es : List Event)
          → InOrder 0 es
          → Requests IsNatural es
          → (key : String)
          → SoundAt (last_time 0 es) (
              lookup key (run execute (record { storage = empty; grants = [] }) es).storage.entries)
      unfolding empty lookup
      histories-Sound es order natural =
          run_inv execute AllSound IsNatural request-AllSound sweep-AllSound 0
            (record { storage = empty; grants = [] }) es (λ key. tt) order natural
