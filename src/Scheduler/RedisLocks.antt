-- ===== src/Scheduler/RedisLocks.antt =====
-- The locks of the Redis backend keep everybody out for the ttl, whichever commands fail.
use text.Mathlib.TextLemmas.{append_cancel_left}
use my_go.Common.{
  ℕ, suc, ◌*◌, ◌≤◌, ◌<◌, ◌≡◌, ◌≢◌, refl, sym, subst, ap, ◌∙◌, inl, inr, Bool-cases, Time, Duration,
  pos, second, String, List, [], ◌∷◌, Option, none, some, true, false, Fallible, ok, err, add_time,
  eq_iff, arith, drop_if,
}
use my_go.Redis.{Client, whole_seconds}
use my_go.Redis.Entries.{Entry, IsRedis, is_gone, value_of, after_set_nx, after_expire, IsFailure}
use my_go.Redis.Keeping.{
  Outlasts, gone_by-Outlasts, is_free-none, Changed-Keeps, answered-Keeps, run_script-Keeps,
}
use my_go.Scheduler.Locks.{
  LockCall, acquiring, refreshing, releasing, time_of, InOrder, Before, releases, releases-head,
}
use my_go.Scheduler.Redis.{
  wrapped, lock_key, is_value, acquire_lock, release_script, release_lock, refresh_script,
  refresh_lock,
}

-- The owner has the lock, up to a time at least.
abbrev Holds : String → Time → Option Entry → Type 0
Holds owner until none = ⊥
Holds owner until (some e) = (e.value ≡ owner) × Outlasts until e.expires_at

Holds-later :
    (owner : String) (until now : Time) (o : Option Entry)
    → now < until
    → Holds owner until o
    → Holds owner until (drop_if (is_gone now) o)
Holds-later owner until now none h p = p
Holds-later owner until now (some e) h (v, x) =
    rw (gone_by-Outlasts until now e.expires_at h x) (v, x)

Holds-after_set_nx :
    (owner : String) (until now : Time) (v : String) (ttl : Duration) (o : Option Entry)
    → Holds owner until o
    → Holds owner until (after_set_nx now v ttl o)
Holds-after_set_nx owner until now v ttl none p = absurd p
Holds-after_set_nx owner until now v ttl (some e) p = p

-- A refresh by whole seconds, at the start of the lock or later, does not shorten it.
Holds-after_expire :
    (owner : String) (at now : Time) (n : ℕ) (o : Option Entry)
    → at ≤ now
    → Holds owner (add_time at (pos (suc n * second))) o
    → Holds owner (add_time at (pos (suc n * second))) (after_expire now (pos (suc n)) o)
Holds-after_expire owner at now n none h p = p
Holds-after_expire owner at now n (some e) h (v, x) = (v, omega arith)

is_value-Holds :
    (owner other : String) (until : Time) (o : Option Entry)
    → Holds owner until o
    → is_value (value_of o) other ≡ true
    → owner ≡ other
is_value-Holds owner other until none p e = absurd p
is_value-Holds owner other until (some x) (v, q) e = sym v ∙ (eq_iff x.value other).0 e

wrapped_not_ok :
    {A : Type 0} (message : String) (a : A) (x : Fallible String A)
    → IsFailure x
    → wrapped message x ≢ ok a
wrapped_not_ok message a (ok b) f e = f
wrapped_not_ok message a (err b) f e = cc

ok_same : {A : Type 0} (message : String) (a b : A) → wrapped message (ok b) ≡ ok a → b ≡ a
ok_same message a b e = cc

module _ {D : Type 0} (client : Client D) (ttl : Duration) where
  unfoldable pub call : LockCall → D → D
  call (acquiring t key owner) d = (acquire_lock client t key ttl owner d).0
  call (refreshing t key owner) d = (refresh_lock client t key ttl owner d).0
  call (releasing t key owner) d = (release_lock client t key owner d).0

  unfoldable pub call_all : List LockCall → D → D
  call_all [] d = d
  call_all (c ∷ cs) d = call_all cs (call c d)

module _ {D : Type 0} (client : Client D) (held : Time → String → D → Option Entry)
    (redis : IsRedis client held) (n : ℕ) where
  open redis use {
    held_later, set_nx_law, run_script_law, call_get_law, call_del_law, call_expire_law,
  }

  abbrev ttl : Duration
  ttl = pos (suc n * second)

  Holds-acquire :
      (owner key : String) (until t : Time) (k o : String) (d : D)
      → Holds owner until (held t (lock_key key) d)
      → Holds owner until (held t (lock_key key) (acquire_lock client t k ttl o d).0)
  unfolding acquire_lock
  Holds-acquire owner key until t k o d p =
      answered-Keeps held (Holds owner until) _ _ t (lock_key k) (lock_key key) _ d _
        (set_nx_law t (lock_key k) o ttl (suc n * 1000) d (omega arith) (ap pos (omega arith)))
        (λ e.
          Holds-after_set_nx owner until t o ttl (held t (lock_key k) d)
            (subst (λ s. Holds owner until (held t s d)) (sym e) p))
        p

  Holds-refresh_script :
      (owner key : String) (at t : Time) (k o : String) (d : D)
      → at ≤ t
      → Holds owner (add_time at ttl) (held t (lock_key key) d)
      → Holds owner
          (add_time at ttl)
          (held t (lock_key key) (refresh_script client t (lock_key k) o (pos (suc n)) d).0)
  unfolding refresh_script
  Holds-refresh_script owner key at t k o d h p =
      elim (Bool-cases (is_value (client.call_get t (lock_key k) d) o)) [
        | inr e ↦ rw e p
        | inl e ↦ rw e (
            Changed-Keeps held (Holds owner (add_time at ttl)) t (lock_key k) (lock_key key) _ d _
              (call_expire_law t (lock_key k) (pos (suc n)) d).0
              (λ same.
                Holds-after_expire owner at t n _ h
                  (subst (λ s. Holds owner (add_time at ttl) (held t s d)) (sym same) p))
              p)
      ]

  Holds-release_script :
      (owner key : String) (until t : Time) (k o : String) (d : D)
      → releases key owner (releasing t k o ∷ []) ≡ false
      → Holds owner until (held t (lock_key key) d)
      → Holds owner until (held t (lock_key key) (release_script client t (lock_key k) o d).0)
  unfolding release_script
  Holds-release_script owner key until t k o d r p =
      elim (Bool-cases (is_value (client.call_get t (lock_key k) d) o)) [
        | inr e ↦ rw e p
        | inl e ↦ rw e (
            Changed-Keeps held (Holds owner until) t (lock_key k) (lock_key key) none d _
              (call_del_law t (lock_key k) d).0
              (λ same.
                let q = subst (λ s. Holds owner until (held t s d)) (sym same) p in
                let mine =
                  is_value-Holds owner o until _ q (rw (call_get_law t (lock_key k) d) at e) in
                let k_is = append_cancel_left "scheduler:lock:" k key same in
                absurd (ground (arith, eq_iff k key, eq_iff o owner)))
              p)
      ]

  whole_seconds-ttl : whole_seconds ttl ≡ pos (suc n)
  whole_seconds-ttl = ap pos (omega arith)

  Holds-call :
      (owner key : String) (at : Time) (c : LockCall) (d : D)
      → at ≤ time_of c
      → releases key owner (c ∷ []) ≡ false
      → Holds owner (add_time at ttl) (held (time_of c) (lock_key key) d)
      → Holds owner (add_time at ttl) (held (time_of c) (lock_key key) (call client ttl c d))
  unfolding call refresh_lock release_lock
  Holds-call owner key at (acquiring t k o) d h r p =
      Holds-acquire owner key (add_time at ttl) t k o d p
  Holds-call owner key at (refreshing t k o) d h r p = rw whole_seconds-ttl (
      run_script-Keeps held (Holds owner (add_time at ttl)) client redis t (lock_key key)
        (refresh_script client t (lock_key k) o (pos (suc n))) d p
        (Holds-refresh_script owner key at t k o d h p))
  Holds-call owner key at (releasing t k o) d h r p =
      run_script-Keeps held (Holds owner (add_time at ttl)) client redis t (lock_key key)
        (release_script client t (lock_key k) o) d p
        (Holds-release_script owner key (add_time at ttl) t k o d r p)

  Holds-at :
      (owner key : String) (until last now : Time) (d : D)
      → last ≤ now
      → now < until
      → Holds owner until (held last (lock_key key) d)
      → Holds owner until (held now (lock_key key) d)
  Holds-at owner key until last now d h u p =
      rw (held_later last now (lock_key key) d h) (Holds-later owner until now _ u p)

  Holds-call_all :
      (owner key : String) (at last now : Time) (cs : List LockCall) (d : D)
      → at ≤ last
      → last ≤ now
      → now < add_time at ttl
      → InOrder last cs
      → Before now cs
      → releases key owner cs ≡ false
      → Holds owner (add_time at ttl) (held last (lock_key key) d)
      → Holds owner (add_time at ttl) (held now (lock_key key) (call_all client ttl cs d))
  unfolding call_all
  Holds-call_all owner key at last now [] d h l u o b r p =
      Holds-at owner key (add_time at ttl) last now d l u p
  Holds-call_all owner key at last now (c ∷ cs) d h l u (o, os) (b, bs) r p =
      let (r1, r2) = releases-head key owner c cs r in
      let kept = Holds-at owner key (add_time at ttl) last (time_of c) d o (omega arith) p in
      Holds-call_all owner key at (time_of c) now cs (call client ttl c d) (omega arith) b u os bs
        r2 (Holds-call owner key at c d (omega arith) r1 kept)

  -- An attempt that answers true found no entry, and left the owner's.
  Holds-won :
      (owner key : String) (at : Time) (d : D)
      → (acquire_lock client at key ttl owner d).1 ≡ ok true
      → Holds owner
          (add_time at ttl)
          (held at (lock_key key) (call client ttl (acquiring at key owner) d))
  unfolding acquire_lock call
  Holds-won owner key at d won =
      elim (set_nx_law at (lock_key key) owner ttl (suc n * 1000) d (omega arith)
        (ap pos (omega arith))) [
          | inr (f, x) ↦ absurd (wrapped_not_ok "failed to acquire lock: " true _ f won)
          | inl (x, c) ↦
              let e =
                is_free-none (held at (lock_key key) d)
                  (ok_same "failed to acquire lock: " true _ (rw x at won)) in
              rw (c (lock_key key), (eq_iff (lock_key key) (lock_key key)).1 refl, e)
                (refl, omega arith)
        ]

  -- What an owner holds, nobody acquires.
  Holds-acquire_lock :
      (owner other key : String) (until now : Time) (d : D)
      → Holds owner until (held now (lock_key key) d)
      → (acquire_lock client now key ttl other d).1 ≢ ok true
  unfolding acquire_lock
  Holds-acquire_lock owner other key until now d p won =
      elim (set_nx_law now (lock_key key) other ttl (suc n * 1000) d (omega arith)
        (ap pos (omega arith))) [
          | inr (f, x) ↦ wrapped_not_ok "failed to acquire lock: " true _ f won
          | inl (x, c) ↦
              let e =
                is_free-none (held now (lock_key key) d)
                  (ok_same "failed to acquire lock: " true _ (rw x at won)) in
              subst (Holds owner until) e p
        ]

  -- The client is Redis, as it is documented, and the ttl is a positive number of whole seconds. An
  -- attempt to acquire the lock of a key answers true at some time, and its owner does not release the
  -- key. Whatever lock calls all owners make after that, in order, whichever of them fail, and whether
  -- a failed one had its effect or not, no attempt to acquire the lock before the expiry answers true.
  pub acquire_lock-locks :
      (key owner other : String) (at now : Time) (cs : List LockCall) (d : D)
      → (acquire_lock client at key ttl owner d).1 ≡ ok true
      → at ≤ now
      → now < add_time at ttl
      → InOrder at cs
      → Before now cs
      → releases key owner cs ≡ false
      → (acquire_lock client now key ttl other
          (call_all client ttl cs (call client ttl (acquiring at key owner) d))).1
        ≢ ok true
  acquire_lock-locks key owner other at now cs d won h u o b r =
      let d1 = call client ttl (acquiring at key owner) d in
      Holds-acquire_lock owner other key (add_time at ttl) now (call_all client ttl cs d1) (
        Holds-call_all owner key at at now cs d1 (omega arith) h u o b r
          (Holds-won owner key at d won))
