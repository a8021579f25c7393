-- ===== src/Config/Merging.antt =====
-- Which source wins, mergeMaps of provider.go.
use my_go.Common.{
  ◌≡◌, refl, subst, sym, ◌∙◌, inl, inr, String, List, [], ◌∷◌, ◌++◌, Option, none, some, true,
  Bool-cases, Option-cases, if◌then◌else◌, Fallible, ok, err, str_eq, eq_iff, arith,
}
use my_go.Config.{
  Scalar, Value, leaf, node, Entries, empty, entry, find, put, merge_maps, merge_value,
  get_nested_value, load_from, load,
}

pub find-put :
    (new wanted : String) (v : Value) (es : Entries)
    → find wanted (put new v es) ≡ (if str_eq new wanted then some v else find wanted es)
unfolding find put
find-put new wanted v empty = refl
find-put new wanted v (entry key held rest) =
    ground (arith, find-put new wanted v rest, eq_iff key new, eq_iff key wanted, eq_iff new wanted)

-- A Go map has each key once, at every level.
unfoldable mutual
  pub Distinct : Entries → Type 0
  Distinct empty = Unit
  Distinct (entry key v rest) = (find key rest ≡ none) × DistinctIn v × Distinct rest

  pub DistinctIn : Value → Type 0
  DistinctIn (leaf t) = Unit
  DistinctIn (node es) = Distinct es

abbrev merged_at : Option Value → Option Value → Option Value
merged_at a none = a
merged_at a (some v) = some (merge_value a v)

pub str_eq_refl : (t : String) → str_eq t t ≡ true
str_eq_refl t = ground (arith, eq_iff t t)

merged_at-same :
    (key : String) (v : Value) (a rest : Entries)
    → find key rest ≡ none
    → merged_at (find key (put key (merge_value (find key a) v) a)) (find key rest)
      ≡ merged_at (find key a) (some v)
merged_at-same key v a rest e =
    rw (find-put key key (merge_value (find key a) v) a) (rw (str_eq_refl key) (rw e refl))

find-merge_maps :
    (wanted : String) (a b : Entries)
    → Distinct b
    → find wanted (merge_maps a b) ≡ merged_at (find wanted a) (find wanted b)
unfolding merge_maps merge_value Distinct find
find-merge_maps wanted a empty d = refl
find-merge_maps wanted a (entry key v rest) (absent, dv, dr) =
    find-merge_maps wanted (put key (merge_value (find key a) v) a) rest dr
    ∙ elim (Bool-cases (str_eq key wanted)) [
      | inl e ↦ rw e (
          subst
            (λ w.
              merged_at (find w (put key (merge_value (find key a) v) a)) (find w rest)
              ≡ merged_at (find w a) (some v))
            ((eq_iff key wanted).0 e) (merged_at-same key v a rest absent))
      | inr e ↦ rw e (rw (find-put key wanted (merge_value (find key a) v) a) (rw e refl))
    ]

abbrev pub get_in : Option Value → List String → Option Value
get_in none keys = none
get_in (some v) keys = get_nested_value v keys

pub get_nested_value-in :
    (es : Entries) (key : String) (keys : List String)
    → get_nested_value (node es) (key ∷ keys) ≡ get_in (find key es) keys
unfolding get_nested_value
get_nested_value-in es key keys = elim (Option-cases (find key es)) [
  | inl e ↦ rw (get_nested_value, e) refl
  | inr (v, e) ↦ rw (get_nested_value, e) refl
]

some_same : (a b : Value) → ◌≡◌ {A = Option Value} (some a) (some b) → a ≡ b
some_same a b h = cc

node_no_leaf :
    (b : Entries) (t : Scalar) → ◌≡◌ {A = Option Value} (some (node b)) (some (leaf t)) → ⊥
node_no_leaf b t h = cc

none_no_leaf : (t : Scalar) → ◌≡◌ {A = Option Value} none (some (leaf t)) → ⊥
none_no_leaf t h = cc

pub DistinctIn-find :
    (key : String) (es : Entries) (v : Value) → Distinct es → find key es ≡ some v → DistinctIn v
unfolding find Distinct
DistinctIn-find key empty v d e = cc
DistinctIn-find key (entry k held rest) v (absent, dh, dr) e = elim (Bool-cases (str_eq k key)) [
  | inl b ↦ subst DistinctIn (some_same held v (rw b at e)) dh
  | inr b ↦ DistinctIn-find key rest v dr (rw b at e)
]

merged_at-wins :
    (key : String) (keys : List String) (b : Entries) (o : Option Value) (t : Scalar)
    → Distinct b
    → ((v : Value)
        → DistinctIn v
        → get_nested_value v keys ≡ some (leaf t)
        → get_nested_value (merge_value o v) keys ≡ some (leaf t))
    → (p : Option Value) → find key b ≡ p
    → get_in p keys ≡ some (leaf t)
    → get_in (merged_at o p) keys ≡ some (leaf t)
merged_at-wins key keys b o t d wins none h g = absurd (none_no_leaf t g)
merged_at-wins key keys b o t d wins (some v) h g = wins v (DistinctIn-find key b v d h) g

-- What a value has at some keys is there after it is merged over another.
merge_value-wins :
    (keys : List String) (o : Option Value) (v : Value) (t : Scalar)
    → DistinctIn v
    → get_nested_value v keys ≡ some (leaf t)
    → get_nested_value (merge_value o v) keys ≡ some (leaf t)
unfolding merge_value get_nested_value DistinctIn
merge_value-wins keys none v t d e = e
merge_value-wins keys (some (leaf u)) v t d e = e
merge_value-wins keys (some (node a)) (leaf u) t d e = e
merge_value-wins [] (some (node a)) (node b) t d e = absurd (node_no_leaf b t e)
merge_value-wins (key ∷ keys) (some (node a)) (node b) t d e =
    get_nested_value-in (merge_maps a b) key keys
    ∙ rw (find-merge_maps key a b d) (
        merged_at-wins key keys b (find key a) t d (λ v. merge_value-wins keys (find key a) v t)
          (find key b) refl (sym (get_nested_value-in b key keys) ∙ e))

get_nested_value-merge_maps :
    (a b : Entries) (keys : List String) (t : Scalar)
    → Distinct b
    → get_nested_value (node b) keys ≡ some (leaf t)
    → get_nested_value (node (merge_maps a b)) keys ≡ some (leaf t)
unfolding merge_value DistinctIn
get_nested_value-merge_maps a b keys t d e = merge_value-wins keys (some (node a)) (node b) t d e

load_from-append :
    (merged : Entries) (before after : List (Fallible String Entries))
    → load_from merged (before ++ after) ≡ load_from (load_from merged before) after
unfolding load_from
load_from-append merged [] after = refl
load_from-append merged (err e ∷ before) after = load_from-append merged before after
load_from-append merged (ok es ∷ before) after =
    load_from-append (merge_maps merged es) before after

abbrev pub AllFail : List (Fallible String Entries) → Type 0
AllFail [] = Unit
AllFail (err e ∷ rest) = AllFail rest
AllFail (ok es ∷ rest) = ⊥

load_from-AllFail :
    (merged : Entries) (after : List (Fallible String Entries))
    → AllFail after
    → load_from merged after ≡ merged
unfolding load_from
load_from-AllFail merged [] f = refl
load_from-AllFail merged (err e ∷ after) f = load_from-AllFail merged after f
load_from-AllFail merged (ok es ∷ after) f = absurd f

-- The last provider that does not fail wins: a value that is no map and that its map has at some keys is what `Get` finds
-- there after the load, whatever the other providers give. Its map has each key once, at every level.
pub load-wins :
    (before after : List (Fallible String Entries)) (es : Entries) (keys : List String) (t : Scalar)
    → Distinct es
    → AllFail after
    → get_nested_value (node es) keys ≡ some (leaf t)
    → get_nested_value (node (load (before ++ (ok es ∷ after)))) keys ≡ some (leaf t)
unfolding load load_from
load-wins before after es keys t d f e = rw (load_from-append empty before (ok es ∷ after)) (
    rw (load_from-AllFail (merge_maps (load_from empty before) es) after f)
      (get_nested_value-merge_maps (load_from empty before) es keys t d e))
