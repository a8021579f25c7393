-- ===== src/Pgnotify/Channels.antt =====
-- Lemmas on the manager's channels, subscription.go.
use my_go.Common.{
  ℕ, ◌<◌, ◌≡◌, sym, ap, ◌∙◌, String, List, [], ◌∷◌, ◌++◌, length, true, false, Bool-cases, inl, inr,
  lt→ltb, ◌==◌, Fallible, ok, StringMap, insert, lookup-insert, lookup-erase, str_eq, eq_iff, arith,
  length-append,
}
use mathlib.Core.Bool.{false≢true}
use my_go.Pgnotify.{NotifyError}
use my_go.Pgnotify.Subscribing.{has_channel, subs_at, remove, stored, remove_swapped}

pub str_eq_refl : (t : String) → str_eq t t ≡ true
str_eq_refl t = ground (arith, eq_iff t t)

pub eq_refl : (a : ℕ) → (a == a) ≡ true
eq_refl a = ground arith

pub eq_old : (a b : ℕ) → a < b → (a == b) ≡ false
eq_old a b h = ground (arith, h)

pub ok_same : (a b : ℕ) → ◌≡◌ {A = Fallible NotifyError ℕ} (ok a) (ok b) → a ≡ b
ok_same a b h = cc

pub has_channel-insert :
    (channel new : String) (x : ℕ) (xs : List ℕ) (m : StringMap (List ℕ))
    → has_channel channel m ≡ true
    → has_channel channel (insert new (xs ++ (x ∷ [])) m) ≡ true
unfolding has_channel
has_channel-insert channel new x xs m h = elim (Bool-cases (str_eq new channel)) [
  | inl e ↦
      rw (has_channel, lookup-insert new channel (xs ++ (x ∷ [])) m)
        (rw e (lt→ltb 0 (length (xs ++ (x ∷ []))) (omega (arith, length-append xs (x ∷ [])))))
  | inr e ↦ rw (has_channel, lookup-insert new channel (xs ++ (x ∷ [])) m) (rw e h)
]

pub has_channel-inserted :
    (new : String) (x : ℕ) (xs : List ℕ) (m : StringMap (List ℕ))
    → has_channel new (insert new (xs ++ (x ∷ [])) m) ≡ true
unfolding has_channel
has_channel-inserted new x xs m =
    rw (has_channel, lookup-insert new new (xs ++ (x ∷ [])) m)
      (rw (str_eq_refl new)
        (lt→ltb 0 (length (xs ++ (x ∷ []))) (omega (arith, length-append xs (x ∷ [])))))

pub has_channel-remove :
    (channel gone : String) (p : ℕ) (m : StringMap (List ℕ))
    → str_eq gone channel ≡ false
    → has_channel channel m ≡ true
    → has_channel channel (remove gone p m) ≡ true
unfolding remove has_channel
has_channel-remove channel gone p m e h = go (remove_swapped p (subs_at gone m))
  where
    go : (l : List ℕ) → has_channel channel (stored gone l m) ≡ true
    go [] = rw (has_channel, lookup-erase gone channel m) (rw e h)
    go (x ∷ xs) = rw (has_channel, lookup-insert gone channel (x ∷ xs) m) (rw e h)

pub differ :
    (a b : String) (m : StringMap (List ℕ))
    → has_channel a m ≡ false
    → has_channel b m ≡ true
    → str_eq a b ≡ false
differ a b m h g = elim (Bool-cases (str_eq a b)) [
  | inl e ↦ absurd (false≢true (sym h ∙ ap (λ c. has_channel c m) ((eq_iff a b).0 e) ∙ g))
  | inr e ↦ e
]
