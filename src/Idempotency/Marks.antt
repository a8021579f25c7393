-- ===== src/Idempotency/Marks.antt =====
-- With the Redis storage, a key that is marked is not marked again for the ttl.
use my_go.Common.{
  ℕ, suc, ◌*◌, ◌≤◌, ◌<◌, ◌≡◌, ◌≢◌, refl, sym, subst, Time, Duration, pos, String, List, [], ◌∷◌,
  Option, none, some, Bool, true, Fallible, ok, err, add_time, eq_iff, arith, drop_if, inl, inr,
}
use my_go.Redis.{Client}
use my_go.Redis.Entries.{Entry, IsRedis, is_gone, after_set_nx, IsFailure, millisecond}
use my_go.Redis.Keeping.{Outlasts, gone_by-Outlasts, is_free-none, answered-Keeps}
use my_go.Idempotency.Redis.{
  RecordCodec, make_key, wrapped, mark_bytes, set_bytes, try_mark_processing, save_result,
  save_error,
}

-- A call of the storage that writes, by some caller of `Execute`.
pub data StorageCall : Type 0 where
  marking : Time → String → StorageCall
  saving_result : Time → String → List ℕ → StorageCall
  saving_error : Time → String → String → StorageCall

abbrev pub time_of : StorageCall → Time
time_of (marking t key) = t
time_of (saving_result t key bytes) = t
time_of (saving_error t key message) = t

-- The calls come at times that do not decrease, from one time to another.
abbrev pub Between : Time → Time → List StorageCall → Type 0
Between last now [] = last ≤ now
Between last now (c ∷ cs) = (last ≤ time_of c) × Between (time_of c) now cs

abbrev Lasts : Time → Option Entry → Type 0
Lasts until none = ⊥
Lasts until (some e) = Outlasts until e.expires_at

Lasts-later :
    (until now : Time) (o : Option Entry)
    → now < until
    → Lasts until o
    → Lasts until (drop_if (is_gone now) o)
Lasts-later until now none h p = p
Lasts-later until now (some e) h x = rw (gone_by-Outlasts until now e.expires_at h x) x

Lasts-after_set_nx :
    (until now : Time) (v : String) (ttl : Duration) (o : Option Entry)
    → Lasts until o
    → Lasts until (after_set_nx now v ttl o)
Lasts-after_set_nx until now v ttl none p = absurd p
Lasts-after_set_nx until now v ttl (some e) p = p

Between-le : (last now : Time) (cs : List StorageCall) → Between last now cs → last ≤ now
Between-le last now [] b = b
Between-le last now (c ∷ cs) (h, b) = let rest = Between-le (time_of c) now cs b in omega arith

err_not_ok : (message : String) (b : Bool) → ◌≡◌ {A = Fallible String Bool} (err message) (ok b) → ⊥
err_not_ok message b e = cc

failed_not_ok :
    (b : Bool) (x : Fallible String Bool) → IsFailure x → wrapped "redis setnx failed: " x ≢ ok b
failed_not_ok b (ok c) f e = f
failed_not_ok b (err m) f e = cc

ok_same : (b c : Bool) → ◌≡◌ {A = Fallible String Bool} (ok c) (ok b) → c ≡ b
ok_same b c e = cc

module _ {D : Type 0} (client : Client D) (codec : RecordCodec) (prefix : String)
    (ttl : Duration) where
  unfoldable pub call : StorageCall → D → D
  call (marking t key) d = (try_mark_processing client codec prefix t key ttl d).0
  call (saving_result t key bytes) d = (save_result client codec prefix t key bytes ttl d).0
  call (saving_error t key message) d = (save_error client codec prefix t key message ttl d).0

  unfoldable pub call_all : List StorageCall → D → D
  call_all [] d = d
  call_all (c ∷ cs) d = call_all cs (call c d)

module _ {D : Type 0} (client : Client D) (held : Time → String → D → Option Entry)
    (redis : IsRedis client held) (codec : RecordCodec) (prefix : String) (ms : ℕ) where
  open redis use {held_later, set_nx_law, set_law}

  abbrev ttl : Duration
  ttl = pos (suc ms * millisecond)

  Lasts-mark_bytes :
      (until t : Time) (key k : String) (x : Fallible String String) (d : D)
      → Lasts until (held t key d)
      → Lasts until (held t key (mark_bytes client codec prefix t k ttl x d).0)
  Lasts-mark_bytes until t key k (err e) d p = p
  Lasts-mark_bytes until t key k (ok bytes) d p =
      answered-Keeps held (Lasts until) _ _ t (make_key prefix k) key _ d _
        (set_nx_law t (make_key prefix k) bytes ttl (suc ms) d (omega arith) refl)
        (λ e.
          Lasts-after_set_nx until t bytes ttl (held t (make_key prefix k) d)
            (subst (λ s. Lasts until (held t s d)) (sym e) p))
        p

  Lasts-set_bytes :
      (at t : Time) (key k : String) (x : Fallible String String) (d : D)
      → at ≤ t
      → Lasts (add_time at ttl) (held t key d)
      → Lasts (add_time at ttl) (held t key (set_bytes client codec prefix t k ttl x d).0)
  Lasts-set_bytes at t key k (err e) d h p = p
  Lasts-set_bytes at t key k (ok bytes) d h p =
      answered-Keeps held (Lasts (add_time at ttl)) _ _ t (make_key prefix k) key _ d _
        (set_law t (make_key prefix k) bytes ttl (suc ms) d (omega arith) refl) (λ e. omega arith) p

  Lasts-call :
      (at : Time) (key : String) (c : StorageCall) (d : D)
      → at ≤ time_of c
      → Lasts (add_time at ttl) (held (time_of c) key d)
      → Lasts (add_time at ttl) (held (time_of c) key (call client codec prefix ttl c d))
  unfolding call try_mark_processing save_result save_error
  Lasts-call at key (marking t k) d h p = Lasts-mark_bytes (add_time at ttl) t key k _ d p
  Lasts-call at key (saving_result t k bytes) d h p = Lasts-set_bytes at t key k _ d h p
  Lasts-call at key (saving_error t k message) d h p = Lasts-set_bytes at t key k _ d h p

  Lasts-at :
      (until last now : Time) (key : String) (d : D)
      → last ≤ now
      → now < until
      → Lasts until (held last key d)
      → Lasts until (held now key d)
  Lasts-at until last now key d h u p =
      rw (held_later last now key d h) (Lasts-later until now _ u p)

  Lasts-call_all :
      (at last now : Time) (key : String) (cs : List StorageCall) (d : D)
      → at ≤ last
      → now < add_time at ttl
      → Between last now cs
      → Lasts (add_time at ttl) (held last key d)
      → Lasts (add_time at ttl) (held now key (call_all client codec prefix ttl cs d))
  unfolding call_all
  Lasts-call_all at last now key [] d h u b p = Lasts-at (add_time at ttl) last now key d b u p
  Lasts-call_all at last now key (c ∷ cs) d h u (o, b) p =
      let l = Between-le (time_of c) now cs b in
      Lasts-call_all at (time_of c) now key cs (call client codec prefix ttl c d) (omega arith) u b
        (Lasts-call at key c d (omega arith)
          (Lasts-at (add_time at ttl) last (time_of c) key d o (omega arith) p))

  -- An attempt that answers true found no entry, and left one for the ttl.
  Lasts-marked :
      (at : Time) (key : String) (x : Fallible String String) (d : D)
      → (mark_bytes client codec prefix at key ttl x d).1 ≡ ok true
      → Lasts
          (add_time at ttl)
          (held at (make_key prefix key) (mark_bytes client codec prefix at key ttl x d).0)
  Lasts-marked at key (err e) d won = absurd (err_not_ok _ true won)
  Lasts-marked at key (ok bytes) d won =
      let full = make_key prefix key in
      elim (set_nx_law at full bytes ttl (suc ms) d (omega arith) refl) [
        | inr (f, x) ↦ absurd (failed_not_ok true _ f won)
        | inl (x, c) ↦
            let e = is_free-none (held at full d) (ok_same true _ (rw x at won)) in
            rw (c full, (eq_iff full full).1 refl, e) (omega arith)
      ]

  -- Where an entry lasts, nobody marks.
  Lasts-refused :
      (until now : Time) (key : String) (x : Fallible String String) (d : D)
      → Lasts until (held now (make_key prefix key) d)
      → (mark_bytes client codec prefix now key ttl x d).1 ≢ ok true
  Lasts-refused until now key (err e) d p won = err_not_ok _ true won
  Lasts-refused until now key (ok bytes) d p won =
      let full = make_key prefix key in
      elim (set_nx_law now full bytes ttl (suc ms) d (omega arith) refl) [
        | inr (f, x) ↦ failed_not_ok true _ f won
        | inl (x, c) ↦
            subst (Lasts until) (is_free-none (held now full d) (ok_same true _ (rw x at won))) p
      ]

  -- The client is Redis, as it is documented, and the ttl is a positive number of whole milliseconds.
  -- `TryMarkProcessing` of the Redis storage answers true for a key at some time, so a function begins to
  -- run. Whatever calls that write come after that to the storage, from any callers and for any keys, in
  -- order and with the same ttl, whichever of them fail, and whether a failed one had its effect or not,
  -- it answers true for that key at no time before the ttl has passed.
  pub try_mark_processing-once :
      (key : String) (at now : Time) (cs : List StorageCall) (d : D)
      → (try_mark_processing client codec prefix at key ttl d).1 ≡ ok true
      → Between at now cs
      → now < add_time at ttl
      → let d' = call_all client codec prefix ttl (marking at key ∷ cs) d in
        (try_mark_processing client codec prefix now key ttl d').1 ≢ ok true
  unfolding try_mark_processing call_all call
  try_mark_processing-once key at now cs d won b u =
      let d1 = call client codec prefix ttl (marking at key) d in
      Lasts-refused (add_time at ttl) now key _ _ (
        Lasts-call_all at at now (make_key prefix key) cs d1 (omega arith) u b
          (Lasts-marked at key _ d won))
