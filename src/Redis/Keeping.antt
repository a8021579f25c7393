-- ===== src/Redis/Keeping.antt =====
-- What a command keeps of the entry of a key.
use my_go.Common.{
  ℤ, ◌≤◌, ◌<◌, ◌≡◌, refl, ◌⊎◌, inl, inr, Bool-cases, Time, String, Option, none, some, true, false,
  not, Fallible, str_eq, eq_iff, arith,
}
use my_go.Redis.{Client}
use my_go.Redis.Entries.{Entry, IsRedis, gone_by, is_some, Changed, Unchanged, IsFailure}

abbrev pub Outlasts : Time → Option Time → Type 0
Outlasts until none = Unit
Outlasts until (some t) = until ≤ t

pub gone_by-Outlasts :
    (until now : Time) (o : Option Time) → now < until → Outlasts until o → gone_by now o ≡ false
gone_by-Outlasts until now none h x = refl
gone_by-Outlasts until now (some t) h x = ground arith

pub is_free-none : (o : Option Entry) → not (is_some o) ≡ true → o ≡ none
is_free-none none e = refl
is_free-none (some x) e = cc

module _ {D : Type 0} (held : Time → String → D → Option Entry)
    (Keeps : Option Entry → Type 0) where
  pub Changed-Keeps :
      (now : Time) (at_key key : String) (new : Option Entry) (d d' : D)
      → Changed held now at_key new d d'
      → (at_key ≡ key → Keeps new)
      → Keeps (held now key d)
      → Keeps (held now key d')
  Changed-Keeps now at_key key new d d' c same p = elim (Bool-cases (str_eq at_key key)) [
    | inl e ↦ rw (c key, e) (same ((eq_iff at_key key).0 e))
    | inr e ↦ rw (c key, e) p
  ]

  -- Where a command has its answer it changed its key; where it fails it did, or nothing is changed.
  pub answered-Keeps :
      {A : Type 0} (x : Fallible String A) (answer : Fallible String A) (now : Time)
      (at_key key : String) (new : Option Entry) (d d' : D)
      → ((x ≡ answer) × Changed held now at_key new d d')
        ⊎ (IsFailure x × (Changed held now at_key new d d' ⊎ Unchanged held now d d'))
      → (at_key ≡ key → Keeps new)
      → Keeps (held now key d)
      → Keeps (held now key d')
  answered-Keeps x answer now at_key key new d d' (inl (e, c)) same p =
      Changed-Keeps now at_key key new d d' c same p
  answered-Keeps x answer now at_key key new d d' (inr (e, inl c)) same p =
      Changed-Keeps now at_key key new d d' c same p
  answered-Keeps x answer now at_key key new d d' (inr (e, inr u)) same p = rw (u key) p

  -- A script keeps what it keeps where it runs: where it fails it ran, or nothing did.
  pub run_script-Keeps :
      (client : Client D) (redis : IsRedis client held) (now : Time) (key : String)
      (script : D → D × Fallible String ℤ) (d : D)
      → Keeps (held now key d)
      → Keeps (held now key (script d).0)
      → Keeps (held now key (client.run_script script d).0)
  run_script-Keeps client redis now key script d p q = elim (redis.run_script_law script d) [
    | inl e ↦ rw e q
    | inr (x, inl e) ↦ rw e q
    | inr (x, inr e) ↦ rw e p
  ]
