-- ===== src/Idempotency/Service.antt =====
-- `Execute` of internal/pkg/idempotency/service.go over any storage and serializer; `ExecuteTyped`
-- is the same code at a type of its own. The call reaches the storage three times, and other calls
-- may come between, so each part is a function of its own.
use Prim.Native.String.{◌++◌ as append}
use my_go.Common.{
  ℕ, Time, Duration, String, List, Option, none, some, Bool, true, false, Fallible, ok, err,
}
use my_go.Idempotency.{
  Record, Status, none_status, processing, completed, failed, Storage, Error, already_processing,
  storage_failure, serialization_failure, previously_failed, exec_failed,
}

-- What a part of the call comes to: it returns, or goes on.
pub data Next (A : Type 0) : Type 0 where
  return : Fallible Error A → Next A
  go_on : Next A

pub record Serializer (A : Type 0) : Type 0 where
  pub marshal : A → Fallible String (List ℕ)
  pub unmarshal : List ℕ → Fallible String A

module _ {A : Type 0} (serializer : Serializer A) where
  open serializer use {marshal, unmarshal}

  abbrev pub cached : Fallible String A → Next A
  cached (ok a) = return (ok a)
  cached (err e) = return (err serialization_failure)

  -- The `switch` on the status; a status that it does not name goes on.
  abbrev pub on_status : Status → Record → Next A
  on_status completed r = cached (unmarshal r.result)
  on_status processing r = return (err already_processing)
  on_status failed r = return (err (previously_failed r.error_msg))
  on_status none_status r = go_on

  -- Steps 1 and 2: what is there already.
  unfoldable pub on_load : Fallible String (Option Record) → Next A
  on_load (err e) = return (err storage_failure)
  on_load (ok none) = go_on
  on_load (ok (some r)) = on_status r.status r

  -- Step 3: who may run.
  unfoldable pub on_mark : Fallible String Bool → Next A
  on_mark (err e) = return (err storage_failure)
  on_mark (ok true) = go_on
  on_mark (ok false) = return (err already_processing)

  abbrev pub unless : {X : Type 0} → Option String → Error → Fallible Error X → Fallible Error X
  unless none e r = r
  unless (some _) e r = err e

  module _ {S : Type 0} (storage : Storage S) where
    open storage use {load, try_mark_processing, save_result, save_error}

    -- A result that could be serialized, or not.
    abbrev pub save_marshalled :
        Time → String → Duration → A → Fallible String (List ℕ) → S → S × Fallible Error A
    save_marshalled now key ttl a (ok bytes) s =
        let (s', e) = save_result now key bytes ttl s in (s', unless e storage_failure (ok a))
    save_marshalled now key ttl a (err e) s =
        let (s', _) = save_error now key (append "serialization failed: " e) ttl s in
        (s', err serialization_failure)

    -- Step 5: the outcome of the function is saved.
    unfoldable pub save : Time → String → Duration → Fallible String A → S → S × Fallible Error A
    save now key ttl (err e) s =
        let (s', x) = save_error now key e ttl s in
        (s', unless x storage_failure (err (exec_failed e)))
    save now key ttl (ok a) s = save_marshalled now key ttl a (marshal a) s

    -- The whole call, at its three clock readings. The function acts on a world of its own, `W`.
    unfoldable pub execute :
        {W : Type 0}
        → Time
        → Time
        → Time
        → String
        → Duration
        → (W → W × Fallible String A)
        → S × W
        → (S × W) × Fallible Error A
    execute t_load t_mark t_save key ttl fn (s, w) =
        let (s1, m) = try_mark_processing t_mark key ttl s in
        let (w', r) = fn w in
        let (s2, out) = save t_save key ttl r s1 in
        elim (on_load (load t_load key s)) [
          | return r' ↦ ((s, w), r')
          | go_on ↦ elim (on_mark m) [ return r' ↦ ((s1, w), r') | go_on ↦ ((s2, w'), out) ]
        ]

    -- `ExecuteTyped`, the same code once more, at the type `A`.
    abbrev execute_typed :
        {W : Type 0}
        → Time
        → Time
        → Time
        → String
        → Duration
        → (W → W × Fallible String A)
        → S × W
        → (S × W) × Fallible Error A
    execute_typed = execute
