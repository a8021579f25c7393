-- ===== src/Idempotency/Exclusion.antt =====
-- For one key, functions begin to run at least one ttl apart.
use my_go.Common.{
  ℕ, ◌≤◌, ◌≡◌, refl, sym, subst, Bool-cases, ◌&&◌, ◌⊎◌, inl, inr, Time, Duration, String, List, [],
  ◌∷◌, Option, none, some, Bool, true, false, if◌then◌else◌, Fallible, ok, err, str_eq, eq_iff,
  lookup, insert, lookup-insert, lookup-delete_if, drop_if, add_time, arith,
}
use my_go.Idempotency.{processing}
use my_go.Idempotency.Memory.{
  MemoryRecord, MemoryStorage, memory_storage, new_record, is_taken, is_expired,
  try_mark_processing, save_result, save_error, cleanup,
}
use my_go.Idempotency.Service.{Next, return, go_on, Serializer, on_mark, save, save_marshalled}
use my_go.Idempotency.Callers.{
  Phase, starting, loaded, running, saving, done, Request, Event, turn, sweep, InOrder, time_of,
  Start, World, initial, after_load, advance, step, run,
}

-- The times at which functions began to run for a key, latest first.
abbrev pub start_times : String → List Start → List Time
start_times key [] = []
start_times key (x ∷ xs) =
    if str_eq x.key key then x.at ∷ start_times key xs else start_times key xs

-- Each time is at least the ttl past the one before it.
abbrev pub PastFirst : Duration → Time → List Time → Type 0
PastFirst ttl t [] = Unit
PastFirst ttl t (u ∷ us) = add_time u ttl ≤ t

abbrev pub Apart : Duration → List Time → Type 0
Apart ttl [] = Unit
Apart ttl (t ∷ ts) = PastFirst ttl t ts × Apart ttl ts

-- The record of the key protects its latest start for the ttl.
abbrev Protects : Duration → Time → Option MemoryRecord → List Time → Type 0
Protects ttl last o [] = Unit
Protects ttl last none (t ∷ ts) = (t ≤ last) × (add_time t ttl ≤ last)
Protects ttl last (some mr) (t ∷ ts) =
    (t ≤ last) × ((add_time t ttl ≤ last) ⊎ (add_time t ttl ≤ mr.expires_at))

Protects-later :
    (ttl : Duration) (last now : Time) (o : Option MemoryRecord) (ts : List Time)
    → last ≤ now
    → Protects ttl last o ts
    → Protects ttl now o ts
Protects-later ttl last now o [] h p = tt
Protects-later ttl last now none (t ∷ ts) h p = omega arith
Protects-later ttl last now (some mr) (t ∷ ts) h p = ground arith

Protects-swept :
    (ttl : Duration) (last now : Time) (o : Option MemoryRecord) (ts : List Time)
    → last ≤ now
    → Protects ttl last o ts
    → Protects ttl now (drop_if (is_expired now) o) ts
Protects-swept ttl last now o [] h p = tt
Protects-swept ttl last now none (t ∷ ts) h p = omega arith
Protects-swept ttl last now (some mr) (t ∷ ts) h p = ground arith

-- A record written now, for the ttl.
Protects-written :
    (ttl : Duration) (last now : Time) (o : Option MemoryRecord) (mr : MemoryRecord)
    (ts : List Time)
    → last ≤ now
    → mr.expires_at ≡ add_time now ttl
    → Protects ttl last o ts
    → Protects ttl now (some mr) ts
Protects-written ttl last now o mr [] h e p = tt
Protects-written ttl last now none mr (t ∷ ts) h e p = ground arith
Protects-written ttl last now (some old) mr (t ∷ ts) h e p = ground arith

-- A start that finds the key free comes at least the ttl after the one before it.
Apart-start :
    (ttl : Duration) (last now : Time) (o : Option MemoryRecord) (ts : List Time)
    → last ≤ now
    → is_taken now o ≡ false
    → Protects ttl last o ts
    → Apart ttl ts
    → Apart ttl (now ∷ ts)
Apart-start ttl last now o [] h free p a = (tt, tt)
Apart-start ttl last now none (t ∷ ts) h free p a = ground arith
Apart-start ttl last now (some mr) (t ∷ ts) h free p a = ground arith

Protects-start :
    (ttl : Duration) (now : Time) (mr : MemoryRecord) (o : Option MemoryRecord) (ts : List Time)
    → o ≡ some mr
    → mr.expires_at ≡ add_time now ttl
    → Protects ttl now o (now ∷ ts)
Protects-start ttl now mr o ts e x =
    subst (λ z. Protects ttl now z (now ∷ ts)) (sym e) (ground arith)

-- What an insertion at one key leaves at another, or at the same.
Wrote : Time → Duration → Option MemoryRecord → Option MemoryRecord → Type 0
Wrote now ttl old o =
    ((mr : MemoryRecord) × (o ≡ some mr) × (mr.expires_at ≡ add_time now ttl)) ⊎ (o ≡ old)

Wrote-insert :
    (now : Time) (ttl : Duration) (k key : String) (mr : MemoryRecord) (s : MemoryStorage)
    → mr.expires_at ≡ add_time now ttl
    → Wrote now ttl (lookup key s.records) (lookup key (insert k mr s.records))
unfolding Wrote
Wrote-insert now ttl k key mr s e = elim (Bool-cases (str_eq k key)) [
  | inl same ↦ inl (mr, ground (arith, lookup-insert k key mr s.records), e)
  | inr other ↦ inr (ground (arith, lookup-insert k key mr s.records))
]

Protects-Wrote :
    (ttl : Duration) (last now : Time) (old o : Option MemoryRecord) (ts : List Time)
    → last ≤ now
    → Wrote now ttl old o
    → Protects ttl last old ts
    → Protects ttl now o ts
unfolding Wrote
Protects-Wrote ttl last now old o ts h (inl (mr, e, x)) p =
    subst (λ z. Protects ttl now z ts) (sym e) (Protects-written ttl last now old mr ts h x p)
Protects-Wrote ttl last now old o ts h (inr e) p =
    subst (λ z. Protects ttl now z ts) (sym e) (Protects-later ttl last now old ts h p)

module _ {A : Type 0} (serializer : Serializer A) where
  -- A save writes a record of its key that lives for the ttl, and changes no other key.
  Wrote-save_marshalled :
      (now : Time) (k : String) (ttl : Duration) (a : A) (b : Fallible String (List ℕ))
      (s : MemoryStorage) (key : String)
      → Wrote now ttl
          (lookup key s.records)
          (lookup key (save_marshalled serializer memory_storage now k ttl a b s).0.records)
  unfolding save_result save_error
  Wrote-save_marshalled now k ttl a (ok bytes) s key = Wrote-insert now ttl k key _ s refl
  Wrote-save_marshalled now k ttl a (err e) s key = Wrote-insert now ttl k key _ s refl

  Wrote-save :
      (now : Time) (k : String) (ttl : Duration) (r : Fallible String A) (s : MemoryStorage)
      (key : String)
      → Wrote now ttl
          (lookup key s.records)
          (lookup key (save serializer memory_storage now k ttl r s).0.records)
  unfolding save save_error
  Wrote-save now k ttl (ok a) s key = Wrote-save_marshalled now k ttl a (serializer.marshal a) s key
  Wrote-save now k ttl (err e) s key = Wrote-insert now ttl k key _ s refl

  -- What one access of a caller has to keep.
  abbrev Guarded : String → Time → Request → List Time → MemoryStorage × (Phase A × Bool) → Type 0
  Guarded key now q ts (s, (p, began)) =
      let ts' = if began && str_eq q.key key then now ∷ ts else ts in
      Apart q.ttl ts' × Protects q.ttl now (lookup key s.records) ts'

  Guarded-load :
      (key : String) (last now : Time) (q : Request) (n : Next A) (s : MemoryStorage)
      (ts : List Time)
      → last ≤ now
      → Apart q.ttl ts
      → Protects q.ttl last (lookup key s.records) ts
      → Guarded key now q ts (after_load s n)
  Guarded-load key last now q (return r) s ts h a p = (a, Protects-later q.ttl last now _ ts h p)
  Guarded-load key last now q go_on s ts h a p = (a, Protects-later q.ttl last now _ ts h p)

  -- The key that is marked is the one that the starts are counted for, or it is another.
  Guarded-marked :
      (key : String) (last now : Time) (q : Request) (s : MemoryStorage) (ts : List Time)
      (same : Bool)
      → str_eq q.key key ≡ same
      → is_taken now (lookup q.key s.records) ≡ false
      → last ≤ now
      → Apart q.ttl ts
      → Protects q.ttl last (lookup key s.records) ts
      → let records' = insert q.key (new_record now q.key q.ttl processing [] "") s.records in
        let ts' = if same then now ∷ ts else ts in
        Apart q.ttl ts' × Protects q.ttl now (lookup key records') ts'
  Guarded-marked key last now q s ts false other free h a p = (
    a,
    Protects-Wrote q.ttl last now _ _ ts h
        (Wrote-insert now q.ttl q.key key (new_record now q.key q.ttl processing [] "") s refl) p,
  )
  Guarded-marked key last now q s ts true same free h a p = (
    Apart-start q.ttl last now _ ts h (ground (arith, eq_iff q.key key)) p a,
    Protects-start q.ttl now (new_record now q.key q.ttl processing [] "") _ ts
        (ground
          (arith, lookup-insert q.key key (new_record now q.key q.ttl processing [] "") s.records))
        refl,
  )

  Guarded-mark :
      (key : String) (last now : Time) (q : Request) (outcome : Fallible String A)
      (s : MemoryStorage) (ts : List Time) (taken : Bool)
      → is_taken now (lookup q.key s.records) ≡ taken
      → last ≤ now
      → Apart q.ttl ts
      → Protects q.ttl last (lookup key s.records) ts
      → Guarded key now q ts (advance serializer now q outcome loaded s)
  unfolding advance try_mark_processing on_mark
  Guarded-mark key last now q outcome s ts true e h a p =
      rw e (a, Protects-later q.ttl last now _ ts h p)
  Guarded-mark key last now q outcome s ts false e h a p =
      rw e (Guarded-marked key last now q s ts (str_eq q.key key) refl e h a p)

  -- One access of one caller keeps the starts apart, and the record protects the latest.
  Guarded-advance :
      (key : String) (last now : Time) (q : Request) (outcome : Fallible String A) (p : Phase A)
      (s : MemoryStorage) (ts : List Time)
      → last ≤ now
      → Apart q.ttl ts
      → Protects q.ttl last (lookup key s.records) ts
      → Guarded key now q ts (advance serializer now q outcome p s)
  unfolding advance
  Guarded-advance key last now q outcome starting s ts h a p =
      Guarded-load key last now q _ s ts h a p
  Guarded-advance key last now q outcome loaded s ts h a p =
      Guarded-mark key last now q outcome s ts _ refl h a p
  Guarded-advance key last now q outcome running s ts h a p =
      (a, Protects-later q.ttl last now _ ts h p)
  Guarded-advance key last now q outcome (saving r) s ts h a p =
      (a, Protects-Wrote q.ttl last now _ _ ts h (Wrote-save now q.key q.ttl r s key) p)
  Guarded-advance key last now q outcome (done r) s ts h a p =
      (a, Protects-later q.ttl last now _ ts h p)

-- The starts of a world are apart, and its records protect the latest ones.
abbrev Separated : {A : Type 0} → Duration → String → Time → World A → Type 0
Separated ttl key last w =
    Apart ttl (start_times key w.starts)
    × Protects ttl last (lookup key w.storage.records) (start_times key w.starts)

start_times-began :
    (key : String) (x : Start) (xs : List Start) (began : Bool)
    → (if began && str_eq x.key key then x.at ∷ start_times key xs else start_times key xs)
      ≡ start_times key (if began then x ∷ xs else xs)
start_times-began key x xs true = refl
start_times-began key x xs false = refl

module _ {A : Type 0} (serializer : Serializer A) (requests : ℕ → Request) where
  Separated-turn :
      (key : String) (last now : Time) (i : ℕ) (outcome : Fallible String A) (w : World A)
      → last ≤ now
      → Separated (requests i).ttl key last w
      → Separated (requests i).ttl key now (step serializer requests w (turn i now outcome))
  unfolding step
  Separated-turn key last now i outcome w h (a, p) =
      let moved = advance serializer now (requests i) outcome (w.phase i) w.storage in
      subst
        (λ ts.
          Apart (requests i).ttl ts × Protects (requests i).ttl now (lookup key moved.0.records) ts)
        (start_times-began key (record { at = now; key = (requests i).key }) w.starts moved.1.1)
        (Guarded-advance serializer key last now (requests i) outcome (w.phase i) w.storage _ h a p)

  Separated-step :
      (key : String) (ttl : Duration) (last : Time) (w : World A) (e : Event A)
      → ((i : ℕ) → (requests i).ttl ≡ ttl)
      → last ≤ time_of e
      → Separated ttl key last w
      → Separated ttl key (time_of e) (step serializer requests w e)
  unfolding step cleanup
  Separated-step key ttl last w (turn i now outcome) same h p =
      let there =
        Separated-turn key last now i outcome w h
          (subst (λ d. Separated d key last w) (sym (same i)) p) in
      subst (λ d. Separated d key now (step serializer requests w (turn i now outcome))) (same i)
        there
  Separated-step key ttl last w (sweep now) same h (a, p) = (
    a,
    subst (λ o. Protects ttl now o (start_times key w.starts))
        (sym (lookup-delete_if (is_expired now) key w.storage.records))
        (Protects-swept ttl last now _ _ h p),
  )

  Separated-run :
      (key : String) (ttl : Duration) (last : Time) (w : World A) (es : List (Event A))
      → ((i : ℕ) → (requests i).ttl ≡ ttl)
      → InOrder last es
      → Separated ttl key last w
      → Apart ttl (start_times key (run serializer requests w es).starts)
  unfolding run
  Separated-run key ttl last w [] same h p = p.0
  Separated-run key ttl last w (e ∷ es) same (h, hs) p =
      Separated-run key ttl (time_of e) (step serializer requests w e) es same hs
        (Separated-step key ttl last w e same h p)

  -- Any number of callers of `Execute` share the in-memory storage, all with the same ttl, and the
  -- clean-up goroutine runs beside them. In every interleaving of their accesses, at times that do
  -- not decrease, the functions that begin to run for one key begin at least the ttl apart.
  pub run-Apart :
      (key : String) (ttl : Duration) (es : List (Event A))
      → ((i : ℕ) → (requests i).ttl ≡ ttl)
      → InOrder 0 es
      → Apart ttl (start_times key (run serializer requests initial es).starts)
  run-Apart key ttl es same h = Separated-run key ttl 0 initial es same h (tt, tt)
