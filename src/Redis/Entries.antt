-- ===== src/Redis/Entries.antt =====
-- What Redis documents of the commands on a key: a value that may expire.
use my_go.Common.{
  ℕ, ℤ, pos, negsuc, ◌+◌, ◌*◌, ◌≤◌, ◌<◌, ◌≡◌, ◌⊎◌, zero, suc, Time, Duration, second, String, List,
  [], ◌∷◌, Option, none, some, Bool, true, false, if◌then◌else◌, Fallible, ok, err, add_time, leb,
  str_eq, drop_if, not,
}
use my_go.Redis.{Client, Command, set_command, sadd_command, srem_command, del_command}

pub record Entry : Type 0 where
  pub value : String
  pub expires_at : Option Time

abbrev pub gone_by : Time → Option Time → Bool
gone_by now none = false
gone_by now (some t) = leb t now

abbrev pub is_gone : Time → Entry → Bool
is_gone now e = gone_by now e.expires_at

abbrev pub is_some : Option Entry → Bool
is_some none = false
is_some (some e) = true

abbrev pub value_of : Option Entry → Option String
value_of none = none
value_of (some e) = some e.value

abbrev pub one_if : Bool → ℤ
one_if true = pos 1
one_if false = pos 0

abbrev pub entry_for : Time → String → Duration → Entry
entry_for now v ttl = record { value = v; expires_at = some (add_time now ttl) }

-- What `SET NX` with a ttl makes of the entry of its key.
abbrev pub after_set_nx : Time → String → Duration → Option Entry → Option Entry
after_set_nx now v ttl none = some (entry_for now v ttl)
after_set_nx now v ttl (some e) = some e

-- What `EXPIRE` makes of it: seconds that are not positive delete it.
abbrev pub after_expire : Time → ℤ → Option Entry → Option Entry
after_expire now secs none = none
after_expire now (pos zero) (some e) = none
after_expire now (pos (suc n)) (some e) =
    some (record e { expires_at = some (now + suc n * second) })
after_expire now (negsuc n) (some e) = none

abbrev pub IsFailure : {A : Type 0} → Fallible String A → Type 0
IsFailure (ok a) = ⊥
IsFailure (err e) = Unit

-- An error alone, as a result without a value.
abbrev pub outcome : Option String → Fallible String Bool
outcome none = ok true
outcome (some e) = err e

abbrev pub millisecond : ℕ
millisecond = 1000000

module _ {D : Type 0} (held : Time → String → D → Option Entry) where
  -- A command at one key leaves `new` there, and every other key as it is.
  abbrev pub Changed : Time → String → Option Entry → D → D → Type 0
  Changed now key new d d' =
      (wanted : String)
      → held now wanted d' ≡ (if str_eq key wanted then new else held now wanted d)

  abbrev pub Unchanged : Time → D → D → Type 0
  Unchanged now d d' = (wanted : String) → held now wanted d' ≡ held now wanted d

-- What is documented of the commands, by the entry that is held at each key at a time. A command that
-- fails, as when a connection is lost, had its effect on the server or it had none.
pub record IsRedis {D : Type 0} (client : Client D) (held : Time → String → D → Option Entry)
    : Type 0 where
  pub held_later :
      (t t' : Time) (key : String) (d : D)
      → t ≤ t'
      → held t' key d ≡ drop_if (is_gone t') (held t key d)
  pub set_nx_law :
      (now : Time) (key v : String) (ttl : Duration) (ms : ℕ) (d : D)
      → 0 < ms
      → ttl ≡ pos (ms * millisecond)
      → let new = after_set_nx now v ttl (held now key d) in
        let d' = (client.set_nx now key v ttl d).0 in
        let x = (client.set_nx now key v ttl d).1 in
        ((x ≡ ok (not (is_some (held now key d)))) × Changed held now key new d d')
        ⊎ (IsFailure x × (Changed held now key new d d' ⊎ Unchanged held now d d'))
  pub set_law :
      (now : Time) (key v : String) (ttl : Duration) (ms : ℕ) (d : D)
      → 0 < ms
      → ttl ≡ pos (ms * millisecond)
      → let new = some (entry_for now v ttl) in
        let d' = (client.set now key v ttl d).0 in
        ((outcome (client.set now key v ttl d).1 ≡ ok true) × Changed held now key new d d')
        ⊎ (IsFailure (outcome (client.set now key v ttl d).1)
            × (Changed held now key new d d' ⊎ Unchanged held now d d'))
  pub run_script_law :
      (script : D → D × Fallible String ℤ) (d : D)
      → (client.run_script script d ≡ script d)
        ⊎ (IsFailure (client.run_script script d).1
            × (((client.run_script script d).0 ≡ (script d).0)
                ⊎ ((client.run_script script d).0 ≡ d)))
  pub call_get_law :
      (now : Time) (key : String) (d : D) → client.call_get now key d ≡ value_of (held now key d)
  pub call_del_law :
      (now : Time) (key : String) (d : D)
      → Changed held now key none d (client.call_del now key d).0
        × ((client.call_del now key d).1 ≡ one_if (is_some (held now key d)))
  pub call_expire_law :
      (now : Time) (key : String) (secs : ℤ) (d : D)
      → Changed held now key
          (after_expire now secs (held now key d))
          d
          (client.call_expire now key secs d).0
        × ((client.call_expire now key secs d).1 ≡ one_if (is_some (held now key d)))

-- A command of the pipeline sets the key to the value.
abbrev pub Sets : String → String → List Command → Type 0
Sets key v [] = ⊥
Sets key v (set_command k x ttl ∷ cs) = ((k ≡ key) × (x ≡ v)) ⊎ Sets key v cs
Sets key v (sadd_command k m ∷ cs) = Sets key v cs
Sets key v (srem_command k m ∷ cs) = Sets key v cs
Sets key v (del_command k ∷ cs) = Sets key v cs

-- What is documented of `GET` and of pipelines. What a key holds after a pipeline it held before, or
-- the pipeline sets it, however much of the pipeline was done.
pub record IsStore {D : Type 0} (client : Client D) (held : Time → String → D → Option Entry)
    : Type 0 where
  pub get_law :
      (now : Time) (key : String) (d : D)
      → (client.get now key d ≡ ok (value_of (held now key d))) ⊎ IsFailure (client.get now key d)
  pub exec_law :
      (now at : Time) (key v : String) (cs : List Command) (d : D)
      → value_of (held at key (client.exec now cs d).0) ≡ some v
      → (value_of (held at key d) ≡ some v) ⊎ Sets key v cs
