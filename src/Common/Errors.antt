-- ===== src/Common/Errors.antt =====
-- Go's pair of a value and an error: a value, or an error that is not nil.
use mathlib.Core.Option.{Option, none, some}

pub data Fallible {ℓ κ} (E : Type ℓ) (A : Type κ) : Type (ℓ ⊔ κ) where
  ok : A → Fallible E A
  err : E → Fallible E A

-- The result of a call that returns an error alone.
abbrev pub unless_failed {ℓ κ} : {E : Type ℓ} {A : Type κ} → Option E → A → Fallible E A
unless_failed none a = ok a
unless_failed (some e) a = err e

-- The value is there, without saying what it is.
abbrev pub Succeeds {ℓ κ} : {E : Type ℓ} {A : Type κ} → Fallible E A → Type 0
Succeeds (ok a) = Unit
Succeeds (err e) = ⊥
