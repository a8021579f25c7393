-- ===== src/Config/Environment.antt =====
-- What a variable of the environment sets, setNestedValue of provider.go.
use my_go.Common.{
  ◌≡◌, refl, sym, subst, ap, ◌∙◌, inl, inr, String, List, [], ◌∷◌, ◌++◌, Option, none, some, Bool,
  true, false, Bool-cases, Option-cases, Fallible, ok, str_eq, eq_iff, arith,
}
use my_go.Config.{
  Scalar, text, Value, leaf, node, Entries, empty, entry, find, put, get_nested_value,
  set_nested_value, load_env, load,
}
use my_go.Config.Merging.{
  Distinct, DistinctIn, DistinctIn-find, find-put, str_eq_refl, get_nested_value-in, load-wins,
}

-- A value that is no map stands at the first of the keys, or further on the way to the last; or there
-- are no keys.
abbrev is_scalar : Option Value → Bool
is_scalar none = false
is_scalar (some (leaf t)) = true
is_scalar (some (node es)) = false

unfoldable pub is_blocked : Entries → List String → Bool
is_blocked es [] = true
is_blocked es (key ∷ []) = false
is_blocked es (key ∷ next ∷ keys) = elim (find key es) [
  | none ↦ false
  | some held ↦ elim held [ leaf t ↦ true | node sub ↦ is_blocked sub (next ∷ keys) ]
]

is_blocked-empty : (key : String) (keys : List String) → is_blocked empty (key ∷ keys) ≡ false
unfolding is_blocked find
is_blocked-empty key [] = refl
is_blocked-empty key (next ∷ keys) = refl

get_in-put :
    (key : String) (v : Value) (es : Entries) (keys : List String)
    → get_nested_value (node (put key v es)) (key ∷ keys) ≡ get_nested_value v keys
get_in-put key v es keys =
    get_nested_value-in (put key v es) key keys ∙ rw (find-put key key v es, str_eq_refl key) refl

-- The cases of a key that has more keys after it.
module _ (es : Entries) (key next : String) (keys : List String) (v : String) where
  set_nested_value-none :
      find key es ≡ none
      → set_nested_value es (key ∷ next ∷ keys) v
        ≡ put key (node (set_nested_value empty (next ∷ keys) v)) es
  unfolding set_nested_value
  set_nested_value-none e = rw (set_nested_value, e) refl

  set_nested_value-leaf :
      (t : Scalar) → find key es ≡ some (leaf t) → set_nested_value es (key ∷ next ∷ keys) v ≡ es
  unfolding set_nested_value
  set_nested_value-leaf t e = rw (set_nested_value, e) refl

  set_nested_value-node :
      (sub : Entries)
      → find key es ≡ some (node sub)
      → set_nested_value es (key ∷ next ∷ keys) v
        ≡ put key (node (set_nested_value sub (next ∷ keys) v)) es
  unfolding set_nested_value
  set_nested_value-node sub e = rw (set_nested_value, e) refl

is_blocked-leaf :
    (es : Entries) (key next : String) (keys : List String) (t : Scalar)
    → find key es ≡ some (leaf t)
    → is_blocked es (key ∷ next ∷ keys) ≡ true
unfolding is_blocked
is_blocked-leaf es key next keys t e = rw (is_blocked, e) refl

is_blocked-node :
    (es : Entries) (key next : String) (keys : List String) (sub : Entries)
    → find key es ≡ some (node sub)
    → is_blocked es (key ∷ next ∷ keys) ≡ is_blocked sub (next ∷ keys)
unfolding is_blocked
is_blocked-node es key next keys sub e = rw (is_blocked, e) refl

true_not_false : (b : Bool) → b ≡ true → b ≡ false → ⊥
true_not_false b e f = cc

-- A variable that nothing blocks is found again.
get_nested_value-set_nested_value :
    (es : Entries) (keys : List String) (v : String)
    → is_blocked es keys ≡ false
    → get_nested_value (node (set_nested_value es keys v)) keys ≡ some (leaf (text v))
unfolding set_nested_value is_blocked get_nested_value
get_nested_value-set_nested_value es [] v b = cc
get_nested_value-set_nested_value es (key ∷ []) v b = get_in-put key (leaf (text v)) es []
get_nested_value-set_nested_value es (key ∷ next ∷ keys) v b = elim (Option-cases (find key es)) [
  | inl e ↦
      ap (λ x. get_nested_value (node x) (key ∷ next ∷ keys))
        (set_nested_value-none es key next keys v e)
      ∙ get_in-put key _ es (next ∷ keys)
      ∙ get_nested_value-set_nested_value empty (next ∷ keys) v (is_blocked-empty next keys)
  | inr (leaf t, e) ↦ absurd (true_not_false _ (is_blocked-leaf es key next keys t e) b)
  | inr (node sub, e) ↦
      ap (λ x. get_nested_value (node x) (key ∷ next ∷ keys))
        (set_nested_value-node es key next keys v sub e)
      ∙ get_in-put key _ es (next ∷ keys)
      ∙ get_nested_value-set_nested_value sub (next ∷ keys) v
          (sym (is_blocked-node es key next keys sub e) ∙ b)
]

-- A map has each key once after a key is put.
Distinct-put :
    (key : String) (v : Value) (es : Entries) → DistinctIn v → Distinct es → Distinct (put key v es)
unfolding put Distinct find
Distinct-put key v empty dv d = (refl, dv, tt)
Distinct-put key v (entry k held rest) dv (absent, dh, dr) = elim (Bool-cases (str_eq k key)) [
  | inl e ↦ rw e (subst (λ x. find x rest ≡ none) ((eq_iff k key).0 e) absent, dv, dr)
  | inr e ↦ rw e (
    find-put key k v rest ∙ ground (arith, eq_iff k key, eq_iff key k),
    dh,
    Distinct-put key v rest dv dr,
  )
]

Distinct-set_nested_value :
    (es : Entries) (keys : List String) (v : String)
    → Distinct es
    → Distinct (set_nested_value es keys v)
unfolding set_nested_value Distinct DistinctIn
Distinct-set_nested_value es [] v d = d
Distinct-set_nested_value es (key ∷ []) v d = Distinct-put key (leaf (text v)) es tt d
Distinct-set_nested_value es (key ∷ next ∷ keys) v d = elim (Option-cases (find key es)) [
  | inl e ↦
      subst Distinct (sym (set_nested_value-none es key next keys v e))
        (Distinct-put key _ es (Distinct-set_nested_value empty (next ∷ keys) v tt) d)
  | inr (leaf t, e) ↦ subst Distinct (sym (set_nested_value-leaf es key next keys v t e)) d
  | inr (node sub, e) ↦ subst Distinct (sym (set_nested_value-node es key next keys v sub e)) (
      Distinct-put key _ es
        (Distinct-set_nested_value sub (next ∷ keys) v (DistinctIn-find key es (node sub) d e)) d)
]

Distinct-load_env :
    (es : Entries) (vars : List (List String × String)) → Distinct es → Distinct (load_env es vars)
unfolding load_env
Distinct-load_env es [] d = d
Distinct-load_env es ((keys, v) ∷ vars) d =
    Distinct-load_env (set_nested_value es keys v) vars (Distinct-set_nested_value es keys v d)

load_env-append :
    (es : Entries) (before after : List (List String × String))
    → load_env es (before ++ after) ≡ load_env (load_env es before) after
unfolding load_env
load_env-append es [] after = refl
load_env-append es ((keys, v) ∷ before) after =
    load_env-append (set_nested_value es keys v) before after

-- The environment's provider comes last, and a variable with some keys is the last of the environment.
-- Unless a variable before it has set a value on the way to its keys, `Get` finds its text there after
-- the load, whatever the other providers give and whatever the other variables are.
pub load-env_wins :
    (providers : List (Fallible String Entries)) (vars : List (List String × String))
    (keys : List String) (v : String)
    → is_blocked (load_env empty vars) keys ≡ false
    → let env = load_env empty (vars ++ ((keys, v) ∷ [])) in
      get_nested_value (node (load (providers ++ (ok env ∷ [])))) keys ≡ some (leaf (text v))
unfolding Distinct load_env
load-env_wins providers vars keys v b =
    let env = load_env empty (vars ++ ((keys, v) ∷ [])) in
    load-wins providers [] env keys (text v) (Distinct-load_env empty (vars ++ ((keys, v) ∷ [])) tt)
      tt
      (ap (λ x. get_nested_value (node x) keys) (load_env-append empty vars ((keys, v) ∷ []))
        ∙ get_nested_value-set_nested_value (load_env empty vars) keys v b)
