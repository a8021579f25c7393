-- ===== src/Idempotency/Callers.antt =====
-- Any number of callers of `Execute` over one in-memory storage, and the clean-up goroutine, in any
-- interleaving: an event is one caller's next access to the storage, or the end of its function.
use my_go.Common.{
  ℕ, ◌≤◌, Time, Duration, String, List, [], ◌∷◌, Bool, true, false, if◌then◌else◌, ◌==◌, Fallible,
}
use my_go.Idempotency.{Error}
use my_go.Idempotency.Memory.{
  MemoryStorage, memory_storage, empty, load, try_mark_processing, cleanup,
}
use my_go.Idempotency.Service.{Next, Serializer, on_load, on_mark, save, return, go_on}

-- Where a call stands.
pub data Phase (A : Type 0) : Type 0 where
  starting loaded running : Phase A
  saving : Fallible String A → Phase A
  done : Fallible Error A → Phase A

pub record Request : Type 0 where
  pub key : String
  pub ttl : Duration

-- `turn i t outcome` moves caller `i` on at time `t`; the outcome is read when its function ends.
pub data Event (A : Type 0) : Type 0 where
  turn : ℕ → Time → Fallible String A → Event A
  sweep : Time → Event A

abbrev pub time_of : {A : Type 0} → Event A → Time
time_of (turn i t outcome) = t
time_of (sweep t) = t

-- The clock does not run backwards.
abbrev pub InOrder : {A : Type 0} → Time → List (Event A) → Type 0
InOrder last [] = Unit
InOrder last (e ∷ es) = (last ≤ time_of e) × InOrder (time_of e) es

-- A function that began to run, for a key.
pub record Start : Type 0 where
  pub at : Time
  pub key : String

pub record World (A : Type 0) : Type 0 where
  pub storage : MemoryStorage
  pub phase : ℕ → Phase A
  pub starts : List Start

abbrev pub initial : {A : Type 0} → World A
initial = record { storage = empty; phase = λ i. starting; starts = [] }

abbrev pub after_load : {A : Type 0} → MemoryStorage → Next A → MemoryStorage × (Phase A × Bool)
after_load s (return r) = (s, (done r, false))
after_load s go_on = (s, (loaded, false))

abbrev pub after_mark : {A : Type 0} → MemoryStorage → Next A → MemoryStorage × (Phase A × Bool)
after_mark s (return r) = (s, (done r, false))
after_mark s go_on = (s, (running, true))

module _ {A : Type 0} (serializer : Serializer A) where
  -- The part of `Execute` that comes next, and whether the function begins to run by it.
  unfoldable pub advance :
      Time
      → Request
      → Fallible String A
      → Phase A
      → MemoryStorage
      → MemoryStorage × (Phase A × Bool)
  advance now q outcome starting s = after_load s (on_load serializer (load now q.key s))
  advance now q outcome loaded s =
      let (s', m) = try_mark_processing now q.key q.ttl s in after_mark s' (on_mark serializer m)
  advance now q outcome running s = (s, (saving outcome, false))
  advance now q outcome (saving r) s =
      let (s', out) = save serializer memory_storage now q.key q.ttl r s in (s', (done out, false))
  advance now q outcome (done r) s = (s, (done r, false))

module _ {A : Type 0} (serializer : Serializer A) (requests : ℕ → Request) where
  unfoldable pub step : World A → Event A → World A
  step w (turn i now outcome) =
      let (s, (p, began)) = advance serializer now (requests i) outcome (w.phase i) w.storage in
      record {
        storage = s;
        phase = λ j. if j == i then p else w.phase j;
        starts = if began then record { at = now; key = (requests i).key } ∷ w.starts else w.starts;
      }
  step w (sweep now) = record w { storage = cleanup now w.storage }

  unfoldable pub run : World A → List (Event A) → World A
  run w [] = w
  run w (e ∷ es) = run (step w e) es
