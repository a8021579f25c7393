-- ===== src/Common/Map.antt =====
-- Go's `map[string]V` as an association list. Every law is about `lookup`, so the order of the
-- entries, which Go leaves open, does not matter to it.
use Prim.Native.String.{String}
use mathlib.Core.Path.{◌≡◌, refl}
use mathlib.Core.Bool.{Bool}
use mathlib.Core.List.{List, [], ◌∷◌}
use mathlib.Core.Option.{Option, none, some}
use native.Mathlib.Omega.{arith}
use text.Mathlib.Text.{◌==◌ as str_eq}
use text.Mathlib.TextEquality.{eq_iff}
use my_go.Common.Tests.{if◌then◌else◌}

abbrev pub StringMap {ℓ} : Type ℓ → Type ℓ
StringMap V = List (String × V)

-- An option that is kept where a test fails.
abbrev pub drop_if {ℓ} : {V : Type ℓ} → (V → Bool) → Option V → Option V
drop_if p none = none
drop_if p (some v) = if p v then none else some v

module _ {ℓ} {V : Type ℓ} where
  unfoldable pub lookup : String → StringMap V → Option V
  lookup wanted [] = none
  lookup wanted ((key, held) ∷ rest) = if str_eq key wanted then some held else lookup wanted rest

  -- `m[new] = value`
  unfoldable pub insert : String → V → StringMap V → StringMap V
  insert new value [] = (new, value) ∷ []
  insert new value ((key, held) ∷ rest) =
      let kept = insert new value rest in
      if str_eq key new then (new, value) ∷ rest else (key, held) ∷ kept

  -- `delete(m, gone)`
  unfoldable pub erase : String → StringMap V → StringMap V
  erase gone [] = []
  erase gone ((key, held) ∷ rest) =
      let kept = erase gone rest in if str_eq key gone then kept else (key, held) ∷ kept

  -- `for key, held := range m { if p(held) { delete(m, key) } }`
  unfoldable pub delete_if : (V → Bool) → StringMap V → StringMap V
  delete_if p [] = []
  delete_if p ((key, held) ∷ rest) =
      let kept = erase key (delete_if p rest) in if p held then kept else (key, held) ∷ kept

  -- The three keys that meet in a law, compared in pairs.
  pub lookup-insert :
      (new wanted : String) (value : V) (m : StringMap V)
      → lookup wanted (insert new value m)
        ≡ (if str_eq new wanted then some value else lookup wanted m)
  unfolding lookup insert
  lookup-insert new wanted value [] = refl
  lookup-insert new wanted value ((key, held) ∷ rest) = ground (
    arith,
    lookup-insert new wanted value rest,
    eq_iff key new,
    eq_iff key wanted,
    eq_iff new wanted,
  )

  pub lookup-erase :
      (gone wanted : String) (m : StringMap V)
      → lookup wanted (erase gone m) ≡ (if str_eq gone wanted then none else lookup wanted m)
  unfolding lookup erase
  lookup-erase gone wanted [] = ground arith
  lookup-erase gone wanted ((key, held) ∷ rest) =
      ground (
        arith,
        lookup-erase gone wanted rest,
        eq_iff key gone,
        eq_iff key wanted,
        eq_iff gone wanted,
      )

  pub lookup-delete_if :
      (p : V → Bool) (wanted : String) (m : StringMap V)
      → lookup wanted (delete_if p m) ≡ drop_if p (lookup wanted m)
  unfolding lookup delete_if
  lookup-delete_if p wanted [] = refl
  lookup-delete_if p wanted ((key, held) ∷ rest) = ground (
    arith,
    lookup-delete_if p wanted rest,
    lookup-erase key wanted (delete_if p rest),
    eq_iff key wanted,
  )
