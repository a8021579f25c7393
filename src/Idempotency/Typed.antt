-- ===== src/Idempotency/Typed.antt =====
-- The typed wrapper, `TypedService` of types.go. An `any` is a value of `A`, into which a result of type
-- `T` is put, and out of which it is asserted.
use my_go.Common.{Time, Duration, String, Option, none, some, Fallible, ok, err}
use my_go.Idempotency.{Storage, Error, serialization_failure}
use my_go.Idempotency.Service.{Serializer, execute}

abbrev asserted : {A T : Type 0} → (A → Option T) → Fallible Error A → Fallible Error T
asserted as_t (err e) = err e
asserted as_t (ok a) = elim (as_t a) [ none ↦ err serialization_failure | some t ↦ ok t ]

abbrev as_any : {A T W : Type 0} → (T → A) → W × Fallible String T → W × Fallible String A
as_any to_any (w, ok t) = (w, ok (to_any t))
as_any to_any (w, err e) = (w, err e)

module _ {A T S : Type 0} (serializer : Serializer A) (storage : Storage S) (to_any : T → A)
    (as_t : A → Option T) where
  -- `TypedService.Execute`, at the three clock readings of `Execute`.
  unfoldable pub execute_asserted :
      {W : Type 0}
      → Time
      → Time
      → Time
      → String
      → Duration
      → (W → W × Fallible String T)
      → S × W
      → (S × W) × Fallible Error T
  execute_asserted t_load t_mark t_save key ttl fn s =
      let (s', r) =
        execute serializer storage t_load t_mark t_save key ttl (λ w. as_any to_any (fn w)) s in
      (s', asserted as_t r)
