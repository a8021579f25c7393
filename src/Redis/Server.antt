-- ===== src/Redis/Server.antt =====
-- A server in memory, to try the clients of Redis on: a value that may expire at each key, and the
-- members of each set.
use my_go.Common.{
  ℕ, ℤ, pos, negsuc, ◌*◌, ◌≤◌, ◌<◌, ◌≡◌, refl, subst, sym, inl, inr, ◌⊎◌, Bool-cases, zero, suc,
  Time, Duration, String, List, [], ◌∷◌, Option, none, some, true, not, if◌then◌else◌, ok, err,
  leb_ℤ, str_eq, StringMap, lookup, insert, erase, lookup-insert, lookup-erase, drop_if, arith,
  eq_iff, add_time,
}
use my_go.Redis.{Client, Command, set_command, sadd_command, srem_command, del_command}
use my_go.Redis.Entries.{
  Entry, is_gone, gone_by, is_some, value_of, one_if, after_set_nx, after_expire, entry_for,
  IsRedis, Changed, millisecond, Sets, IsStore,
}

pub record Server : Type 0 where
  pub entries : StringMap Entry
  pub names : List String

abbrev pub no_entries : Server
no_entries = record { entries = []; names = [] }

abbrev pub held : Time → String → Server → Option Entry
held now key s = drop_if (is_gone now) (lookup key s.entries)

abbrev pub put_or_erase : String → Option Entry → Server → Server
put_or_erase key none s = record s { entries = erase key s.entries }
put_or_erase key (some e) s = record s { entries = insert key e s.entries }

abbrev entry_of : Time → String → Duration → Entry
entry_of now v ttl = record {
  value = v;
  expires_at = if leb_ℤ ttl (pos 0) then none else some (add_time now ttl);
}

unfoldable pub without : String → List String → List String
without gone [] = []
without gone (name ∷ names) =
    let kept = without gone names in if str_eq name gone then kept else name ∷ kept

abbrev run_command : Time → Command → Server → Server
run_command now (set_command key v ttl) s = put_or_erase key (some (entry_of now v ttl)) s
run_command now (sadd_command key name) s = record s { names = name ∷ s.names }
run_command now (srem_command key name) s = record s { names = without name s.names }
run_command now (del_command key) s = put_or_erase key none s

unfoldable pub run_commands : Time → List Command → Server → Server
run_commands now [] s = s
run_commands now (c ∷ cs) s = run_commands now cs (run_command now c s)

abbrev pub server_client : Client Server
server_client = record {
  get = λ now key s. ok (value_of (held now key s));
  exists = λ now key s. ok (one_if (is_some (held now key s)));
  smembers = λ key s. ok s.names;
  set = λ now key v ttl s. (put_or_erase key (some (entry_of now v ttl)) s, none);
  set_nx = λ now key v ttl s. (
    put_or_erase key (after_set_nx now v ttl (held now key s)) s,
    ok (not (is_some (held now key s))),
  );
  del = λ key s. (put_or_erase key none s, none);
  ping = λ s. none;
  exec = λ now cs s. (run_commands now cs s, none);
  run_script = λ script s. script s;
  call_get = λ now key s. value_of (held now key s);
  call_del = λ now key s. (put_or_erase key none s, one_if (is_some (held now key s)));
  call_expire = λ now key secs s. (
    put_or_erase key (after_expire now secs (held now key s)) s,
    one_if (is_some (held now key s)),
  );
  call_set_ex = λ now key n secs s. (s, some "not in this server");
  call_incrby = λ now key n s. (s, err "not in this server");
}

gone_by-later : (t t' : Time) (o : Option Time) → t ≤ t' → gone_by t o ≡ true → gone_by t' o ≡ true
gone_by-later t t' none h e = e
gone_by-later t t' (some u) h e = ground arith

drop_if-later :
    (t t' : Time) (o : Option Entry)
    → t ≤ t'
    → drop_if (is_gone t') o ≡ drop_if (is_gone t') (drop_if (is_gone t) o)
drop_if-later t t' none h = refl
drop_if-later t t' (some e) h = elim (Bool-cases (is_gone t e)) [
  | inl g ↦ rw (g, gone_by-later t t' e.expires_at h g) refl
  | inr g ↦ rw g refl
]

drop_if-twice :
    (now : Time) (o : Option Entry)
    → drop_if (is_gone now) (drop_if (is_gone now) o) ≡ drop_if (is_gone now) o
drop_if-twice now o = sym (drop_if-later now now o (omega arith))

Changed-put_or_erase :
    (now : Time) (key : String) (new : Option Entry) (s : Server)
    → drop_if (is_gone now) new ≡ new
    → Changed held now key new s (put_or_erase key new s)
Changed-put_or_erase now key none s e wanted = elim (Bool-cases (str_eq key wanted)) [
  | inl b ↦ rw (lookup-erase key wanted s.entries, b) refl
  | inr b ↦ rw (lookup-erase key wanted s.entries, b) refl
]
Changed-put_or_erase now key (some x) s e wanted = elim (Bool-cases (str_eq key wanted)) [
  | inl b ↦ rw (lookup-insert key wanted x s.entries, b) e
  | inr b ↦ rw (lookup-insert key wanted x s.entries, b) refl
]

after_set_nx-stays :
    (now : Time) (v : String) (ttl : Duration) (ms : ℕ) (o : Option Entry)
    → 0 < ms
    → ttl ≡ pos (ms * millisecond)
    → drop_if (is_gone now) o ≡ o
    → drop_if (is_gone now) (after_set_nx now v ttl o) ≡ after_set_nx now v ttl o
after_set_nx-stays now v ttl ms none h e p = ground arith
after_set_nx-stays now v ttl ms (some x) h e p = p

after_expire-stays :
    (now : Time) (secs : ℤ) (o : Option Entry)
    → drop_if (is_gone now) (after_expire now secs o) ≡ after_expire now secs o
after_expire-stays now secs none = refl
after_expire-stays now (pos zero) (some e) = refl
after_expire-stays now (pos (suc n)) (some e) = ground arith
after_expire-stays now (negsuc n) (some e) = refl

entry_of-positive :
    (now : Time) (v : String) (ttl : Duration) (ms : ℕ)
    → 0 < ms
    → ttl ≡ pos (ms * millisecond)
    → entry_of now v ttl ≡ entry_for now v ttl
entry_of-positive now v ttl ms h e = ground arith

pub server-IsRedis : IsRedis server_client held
server-IsRedis = record {
  held_later = λ t t' key s h. drop_if-later t t' (lookup key s.entries) h;
  set_nx_law = λ now key v ttl ms s h e. inl (
    refl,
    Changed-put_or_erase now key (after_set_nx now v ttl (held now key s)) s
        (after_set_nx-stays now v ttl ms _ h e (drop_if-twice now (lookup key s.entries))),
  );
  set_law = λ now key v ttl ms s h e. inl (
    refl,
    λ wanted.
        subst
          (λ x.
            drop_if (is_gone now) (lookup wanted (put_or_erase key (some x) s).entries)
            ≡ (if str_eq key wanted then some (entry_for now v ttl) else held now wanted s))
          (sym (entry_of-positive now v ttl ms h e))
          (Changed-put_or_erase now key (some (entry_for now v ttl)) s
            (after_set_nx-stays now v ttl ms none h e refl) wanted),
  );
  run_script_law = λ script s. inl refl;
  call_get_law = λ now key s. refl;
  call_del_law = λ now key s. (Changed-put_or_erase now key none s refl, refl);
  call_expire_law = λ now key secs s. (
    Changed-put_or_erase now key (after_expire now secs (held now key s)) s
        (after_expire-stays now secs _),
    refl,
  );
}

none_no_value : (v : String) → ◌≡◌ {A = Option String} none (some v) → ⊥
none_no_value v e = cc

some_same : (x v : String) → ◌≡◌ {A = Option String} (some x) (some v) → x ≡ v
some_same x v e = cc

value-erase :
    (at : Time) (gone key v : String) (s : Server)
    → value_of (held at key (put_or_erase gone none s)) ≡ some v
    → value_of (held at key s) ≡ some v
value-erase at gone key v s e = elim (Bool-cases (str_eq gone key)) [
  | inl b ↦ absurd (none_no_value v (rw (lookup-erase gone key s.entries, b) at e))
  | inr b ↦ rw (lookup-erase gone key s.entries, b) at e
]

value_of_live :
    (at : Time) (x : Entry) (v : String)
    → value_of (drop_if (is_gone at) (some x)) ≡ some v
    → x.value ≡ v
value_of_live at x v e = elim (Bool-cases (is_gone at x)) [
  | inl b ↦ absurd (none_no_value v (rw b at e))
  | inr b ↦ some_same x.value v (rw b at e)
]

value-set :
    (now at : Time) (k x : String) (ttl : Duration) (key v : String) (s : Server)
    → value_of (held at key (run_command now (set_command k x ttl) s)) ≡ some v
    → (value_of (held at key s) ≡ some v) ⊎ ((k ≡ key) × (x ≡ v))
value-set now at k x ttl key v s e = elim (Bool-cases (str_eq k key)) [
  | inl b ↦ inr (
    (eq_iff k key).0 b,
    value_of_live at (entry_of now x ttl) v
        (rw (lookup-insert k key (entry_of now x ttl) s.entries, b) at e),
  )
  | inr b ↦ inl (rw (lookup-insert k key (entry_of now x ttl) s.entries, b) at e)
]

-- What is at a key after a command was there before, or the command set it.
value-run_commands :
    (now at : Time) (key v : String) (cs : List Command) (s : Server)
    → value_of (held at key (run_commands now cs s)) ≡ some v
    → (value_of (held at key s) ≡ some v) ⊎ Sets key v cs
unfolding run_commands
value-run_commands now at key v [] s e = inl e
value-run_commands now at key v (sadd_command k m ∷ cs) s e =
    value-run_commands now at key v cs (run_command now (sadd_command k m) s) e
value-run_commands now at key v (srem_command k m ∷ cs) s e =
    value-run_commands now at key v cs (run_command now (srem_command k m) s) e
value-run_commands now at key v (del_command k ∷ cs) s e =
    elim (value-run_commands now at key v cs (run_command now (del_command k) s) e) [
      | inr there ↦ inr there
      | inl old ↦ inl (value-erase at k key v s old)
    ]
value-run_commands now at key v (set_command k x ttl ∷ cs) s e =
    elim (value-run_commands now at key v cs (run_command now (set_command k x ttl) s) e) [
      | inr there ↦ inr (inr there)
      | inl old ↦ elim (value-set now at k x ttl key v s old) [
        | inl o ↦ inl o
        | inr n ↦ inr (inl n)
      ]
    ]

pub server-IsStore : IsStore server_client held
server-IsStore = record {
  get_law = λ now key s. inl refl;
  exec_law = λ now at key v cs s e. value-run_commands now at key v cs s e;
}
