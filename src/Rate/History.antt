-- ===== src/Rate/History.antt =====
-- Histories of a limiter over the in-memory storage: requests, and the sweeps of the clean-up
-- goroutine. `grants` records what was let through; the program keeps no such list.
use my_go.Common.{
  ℤ, ◌≤◌, Time, String, List, [], ◌∷◌, Bool, false, if◌then◌else◌, Fallible, ok, err,
}
use my_go.Rate.Types.{Result, Error}
use my_go.Rate.Memory.{MemoryStorage, cleanup}

pub record Call : Type 0 where
  pub at : Time
  pub key : String
  pub amount : ℤ

pub data Event : Type 0 where
  request : Call → Event
  sweep : Time → Event

abbrev pub time_of : Event → Time
time_of (request c) = c.at
time_of (sweep t) = t

-- The clock does not run backwards.
abbrev pub InOrder : Time → List Event → Type 0
InOrder last [] = Unit
InOrder last (e ∷ es) = (last ≤ time_of e) × InOrder (time_of e) es

-- The time of the last event.
abbrev pub last_time : Time → List Event → Time
last_time last [] = last
last_time last (e ∷ es) = last_time (time_of e) es

-- What is asked of the requests of a history.
abbrev pub Requests : (Call → Type 0) → List Event → Type 0
Requests P [] = Unit
Requests P (request c ∷ es) = P c × Requests P es
Requests P (sweep t ∷ es) = Requests P es

abbrev pub is_allowed : Fallible Error Result → Bool
is_allowed (ok r) = r.allowed
is_allowed (err e) = false

pub record World (F : Type 0) : Type 0 where
  pub storage : MemoryStorage F
  pub grants : List Call

module _ {F : Type 0}
    (execute : Time → String → ℤ → MemoryStorage F → MemoryStorage F × Fallible Error Result) where
  -- One request or one sweep.
  unfoldable pub step : World F → Event → World F
  step w (request c) =
      let (s, r) = execute c.at c.key c.amount w.storage in
      record { storage = s; grants = if is_allowed r then c ∷ w.grants else w.grants }
  step w (sweep t) = record w { storage = cleanup t w.storage }

  unfoldable pub run : World F → List Event → World F
  run w [] = w
  run w (e ∷ es) = run (step w e) es

  -- What one event keeps, as time goes on, a history keeps.
  pub run_inv :
      (P : Time → World F → Type 0) (Q : Call → Type 0)
      → ((last : Time) (w : World F) (c : Call)
          → P last w
          → last ≤ c.at
          → Q c
          → P c.at (step w (request c)))
      → ((last t : Time) (w : World F) → P last w → last ≤ t → P t (step w (sweep t)))
      → (last : Time) (w : World F) (es : List Event) → P last w
      → InOrder last es
      → Requests Q es
      → P (last_time last es) (run w es)
  unfolding run
  run_inv P Q on_request on_sweep last w [] p o q = p
  run_inv P Q on_request on_sweep last w (request c ∷ es) p o q =
      run_inv P Q on_request on_sweep c.at (step w (request c)) es (on_request last w c p o.0 q.0)
        o.1 q.1
  run_inv P Q on_request on_sweep last w (sweep u ∷ es) p o q =
      run_inv P Q on_request on_sweep u (step w (sweep u)) es (on_sweep last u w p o.0) o.1 q
