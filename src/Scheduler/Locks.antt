-- ===== src/Scheduler/Locks.antt =====
-- The locks of the in-memory backend keep other owners out for the ttl.
use my_go.Common.{
  ◌≤◌, ◌≡◌, ◌≢◌, refl, sym, subst, inl, inr, Option-cases, Bool-cases, Time, Duration, String, List,
  [], ◌∷◌, Option, none, some, Bool, true, false, ◌&&◌, if◌then◌else◌, ok, lookup, lookup-insert,
  lookup-erase, add_time, str_eq, eq_iff, arith,
}
use my_go.Scheduler.{LockInfo}
use my_go.Scheduler.Backend.{
  MemoryBackend, new_lock, is_refused, acquire_lock, release_lock, refresh_lock,
}

-- A call of one of the lock methods, by some owner.
pub data LockCall : Type 0 where
  acquiring refreshing releasing : Time → String → String → LockCall

abbrev pub time_of : LockCall → Time
time_of (acquiring t key owner) = t
time_of (refreshing t key owner) = t
time_of (releasing t key owner) = t

abbrev pub key_of : LockCall → String
key_of (acquiring t key owner) = key
key_of (refreshing t key owner) = key
key_of (releasing t key owner) = key

abbrev pub InOrder : Time → List LockCall → Type 0
InOrder last [] = Unit
InOrder last (c ∷ cs) = (last ≤ time_of c) × InOrder (time_of c) cs

-- Every call comes by some time.
abbrev pub Before : Time → List LockCall → Type 0
Before until [] = Unit
Before until (c ∷ cs) = (time_of c ≤ until) × Before until cs

-- The owner releases the key by some call.
abbrev pub releases : String → String → List LockCall → Bool
releases key owner [] = false
releases key owner (acquiring t k o ∷ cs) = releases key owner cs
releases key owner (refreshing t k o ∷ cs) = releases key owner cs
releases key owner (releasing t k o ∷ cs) =
    if str_eq k key && str_eq o owner then true else releases key owner cs

-- The owner has the lock, up to a time at least.
abbrev Holds : String → Time → Option LockInfo → Type 0
Holds owner until none = ⊥
Holds owner until (some lock) = (lock.owner ≡ owner) × (until ≤ lock.expires_at)

module _ (ttl : Duration) where
  -- What a call leaves of the lock that it is about.
  abbrev lock_after : LockCall → Option LockInfo → Option LockInfo
  lock_after (acquiring t k o) l =
      if is_refused t o l then l else some (new_lock k o (add_time t ttl))
  lock_after (refreshing t k o) none = none
  lock_after (refreshing t k o) (some lock) =
      if str_eq lock.owner o then some (record lock { expires_at = add_time t ttl }) else some lock
  lock_after (releasing t k o) none = none
  lock_after (releasing t k o) (some lock) = if str_eq lock.owner o then none else some lock

  -- A call does not take the lock from an owner who does not release it.
  Holds-lock_after :
      (owner : String) (at : Time) (c : LockCall) (key : String) (l : Option LockInfo)
      → at ≤ time_of c
      → time_of c ≤ add_time at ttl
      → releases key owner (c ∷ []) ≡ false
      → str_eq (key_of c) key ≡ true
      → Holds owner (add_time at ttl) l
      → Holds owner (add_time at ttl) (lock_after c l)
  Holds-lock_after owner at c key none h h2 r k p = elim p [ ]
  Holds-lock_after owner at (acquiring t k o) key (some lock) h h2 r same p =
      ground (arith, eq_iff lock.owner o)
  Holds-lock_after owner at (refreshing t k o) key (some lock) h h2 r same p =
      ground (arith, eq_iff lock.owner o)
  Holds-lock_after owner at (releasing t k o) key (some lock) h h2 r same p =
      ground (arith, eq_iff lock.owner o, eq_iff o owner)

pub releases-head :
    (key owner : String) (c : LockCall) (cs : List LockCall)
    → releases key owner (c ∷ cs) ≡ false
    → (releases key owner (c ∷ []) ≡ false) × (releases key owner cs ≡ false)
releases-head key owner (acquiring t k o) cs r = (refl, r)
releases-head key owner (refreshing t k o) cs r = (refl, r)
releases-head key owner (releasing t k o) cs r = ground arith

refused-Holds :
    (owner other : String) (now until : Time) (l : Option LockInfo)
    → Holds owner until l
    → now ≤ until
    → owner ≢ other
    → is_refused now other l ≡ true
refused-Holds owner other now until none p h distinct = elim p [ ]
refused-Holds owner other now until (some lock) p h distinct =
    ground (arith, eq_iff lock.owner other)

module _ {F H : Type 0} (ttl : Duration) where
  unfoldable pub call : LockCall → MemoryBackend F H → MemoryBackend F H
  call (acquiring t key owner) s = (acquire_lock t key ttl owner s).0
  call (refreshing t key owner) s = (refresh_lock t key ttl owner s).0
  call (releasing t key owner) s = (release_lock key owner s).0

  unfoldable pub call_all : List LockCall → MemoryBackend F H → MemoryBackend F H
  call_all [] s = s
  call_all (c ∷ cs) s = call_all cs (call c s)

  lookup-acquire_lock :
      (key : String) (t : Time) (k o : String) (s : MemoryBackend F H)
      → lookup key (acquire_lock t k ttl o s).0.locks ≡ (
          if str_eq k key
          then lock_after ttl (acquiring t k o) (lookup key s.locks)
          else lookup key s.locks)
  unfolding acquire_lock
  lookup-acquire_lock key t k o s =
      ground (arith, eq_iff k key, lookup-insert k key (new_lock k o (add_time t ttl)) s.locks)

  lookup-refresh_lock :
      (key : String) (t : Time) (k o : String) (s : MemoryBackend F H)
      → lookup key (refresh_lock t k ttl o s).0.locks ≡ (
          if str_eq k key
          then lock_after ttl (refreshing t k o) (lookup key s.locks)
          else lookup key s.locks)
  unfolding refresh_lock
  lookup-refresh_lock key t k o s = elim (Option-cases (lookup k s.locks)) [
    | inl e ↦ ground (arith, eq_iff k key)
    | inr (lock, e) ↦ ground (
      arith,
      eq_iff k key,
      lookup-insert k key (record lock { expires_at = add_time t ttl }) s.locks,
    )
  ]

  lookup-release_lock :
      (key : String) (t : Time) (k o : String) (s : MemoryBackend F H)
      → lookup key (release_lock k o s).0.locks ≡ (
          if str_eq k key
          then lock_after ttl (releasing t k o) (lookup key s.locks)
          else lookup key s.locks)
  unfolding release_lock
  lookup-release_lock key t k o s = elim (Option-cases (lookup k s.locks)) [
    | inl e ↦ ground (arith, eq_iff k key)
    | inr (lock, e) ↦ ground (arith, eq_iff k key, lookup-erase k key s.locks)
  ]

  lookup-call :
      (key : String) (c : LockCall) (s : MemoryBackend F H)
      → lookup key (call c s).locks ≡ (
          if str_eq (key_of c) key
          then lock_after ttl c (lookup key s.locks)
          else lookup key s.locks)
  unfolding call
  lookup-call key (acquiring t k o) s = lookup-acquire_lock key t k o s
  lookup-call key (refreshing t k o) s = lookup-refresh_lock key t k o s
  lookup-call key (releasing t k o) s = lookup-release_lock key t k o s

  Holds-call :
      (owner : String) (at : Time) (c : LockCall) (key : String) (s : MemoryBackend F H)
      (same : Bool)
      → str_eq (key_of c) key ≡ same
      → at ≤ time_of c
      → time_of c ≤ add_time at ttl
      → releases key owner (c ∷ []) ≡ false
      → Holds owner (add_time at ttl) (lookup key s.locks)
      → Holds owner
          (add_time at ttl)
          (if same then lock_after ttl c (lookup key s.locks) else lookup key s.locks)
  Holds-call owner at c key s true e h h2 r p = Holds-lock_after ttl owner at c key _ h h2 r e p
  Holds-call owner at c key s false e h h2 r p = p

  Holds-call_all :
      (owner : String) (at last until : Time) (cs : List LockCall) (key : String)
      (s : MemoryBackend F H)
      → at ≤ last
      → until ≤ add_time at ttl
      → InOrder last cs
      → Before until cs
      → releases key owner cs ≡ false
      → Holds owner (add_time at ttl) (lookup key s.locks)
      → Holds owner (add_time at ttl) (lookup key (call_all cs s).locks)
  unfolding call_all
  Holds-call_all owner at last until [] key s h u o b r p = p
  Holds-call_all owner at last until (c ∷ cs) key s h u (o, os) (b, bs) r p =
      let (r1, r2) = releases-head key owner c cs r in
      Holds-call_all owner at (time_of c) until cs key (call c s) (omega arith) u os bs r2 (
        subst (Holds owner (add_time at ttl)) (sym (lookup-call key c s))
          (Holds-call owner at c key s _ refl (omega arith) (omega arith) r1 p))

  lookup-won :
      (key owner : String) (at : Time) (s : MemoryBackend F H)
      → (acquire_lock at key ttl owner s).1 ≡ ok true
      → lookup key (call (acquiring at key owner) s).locks
        ≡ some (new_lock key owner (add_time at ttl))
  unfolding acquire_lock call
  lookup-won key owner at s won = elim (Bool-cases (is_refused at owner (lookup key s.locks))) [
    | inl e ↦ absurd (ground arith)
    | inr e ↦ ground (
      arith,
      eq_iff key key,
      lookup-insert key key (new_lock key owner (add_time at ttl)) s.locks,
    )
  ]

  Holds-won :
      (key owner : String) (at : Time) (s : MemoryBackend F H)
      → (acquire_lock at key ttl owner s).1 ≡ ok true
      → Holds owner (add_time at ttl) (lookup key (call (acquiring at key owner) s).locks)
  Holds-won key owner at s won =
      subst (Holds owner (add_time at ttl)) (sym (lookup-won key owner at s won))
        (refl, omega arith)

  refused-acquire_lock :
      (key other : String) (now : Time) (s : MemoryBackend F H)
      → is_refused now other (lookup key s.locks) ≡ true
      → acquire_lock now key ttl other s ≡ (s, ok false)
  unfolding acquire_lock
  refused-acquire_lock key other now s e = rw e

  -- An owner acquires the lock of a key at some time and does not release it. Whatever lock calls all
  -- owners make after that, in order and up to the expiry, each with the same ttl, an attempt of another
  -- owner to acquire the lock up to the expiry is refused and changes nothing.
  pub acquire_lock-excludes :
      (key owner other : String) (at now : Time) (cs : List LockCall) (s : MemoryBackend F H)
      → (acquire_lock at key ttl owner s).1 ≡ ok true
      → owner ≢ other
      → InOrder at cs
      → Before now cs
      → now ≤ add_time at ttl
      → releases key owner cs ≡ false
      → let s' = call_all cs (call (acquiring at key owner) s) in
        acquire_lock now key ttl other s' ≡ (s', ok false)
  acquire_lock-excludes key owner other at now cs s won distinct o b h r =
      let s1 = call (acquiring at key owner) s in
      let kept =
        Holds-call_all owner at at now cs key s1 (omega arith) h o b r
          (Holds-won key owner at s won) in
      refused-acquire_lock key other now (call_all cs s1)
        (refused-Holds owner other now (add_time at ttl) _ kept h distinct)
