-- ===== src/Retry/Ending.antt =====
-- How a run of retries ends, retry.go.
use my_go.Common.{
  ℕ, zero, suc, ◌+◌, ◌≤◌, ◌<◌, ◌≡◌, refl, ◌⊎◌, inl, inr, ap, ◌∙◌, ℤ, pos, ◌+ℤ◌, int64,
  int64_of_IsInt64, max_int64, Duration, List, [], ◌∷◌, length, Option, none, some, Bool, true,
  false, Bool-cases, Fallible, ok, err, arith, if◌then◌else◌,
}
use my_go.Retry.{
  Policy, Outcome, returned, gave_up, cancelled, unfinished, Run, stop, add_result, next_delay,
  is_retryable, allowed, on_error, on_called, round, do_from, do_with,
}

abbrev pub is_unfinished : {A E : Type 0} → Outcome A E → Bool
is_unfinished unfinished = true
is_unfinished _ = false

next_attempt : (n : ℕ) → n < max_int64 → int64 (pos n +ℤ pos 1) ≡ pos (n + 1)
unfolding ◌+ℤ◌
next_attempt n h =
    let sum : (pos n +ℤ pos 1) ≡ pos (n + 1) = ground arith in
    ap int64 sum ∙ int64_of_IsInt64 (pos (n + 1)) (omega arith)

module _ {W A E : Type 0} (policy : Policy) (grown : Duration → ℤ → Duration)
    (shaken : W → Duration → Duration) (fn : W → W × Fallible E A) (retryable : Option (E → Bool))
    (is_cancelled : W → Bool) (wait : Duration → W → W) where
  -- A success is the last result and what is returned; after an error that cannot be retried there is
  -- no other call; without a success the run is cancelled or gives up with the last error.
  abbrev pub Explains : Option E → List (Fallible E A) → Outcome A E → Type 0
  Explains last [] o = (o ≡ cancelled) ⊎ (o ≡ gave_up last)
  Explains last (ok a ∷ rest) o = (rest ≡ []) × (o ≡ returned a)
  Explains last (err e ∷ rest) o =
      ((is_retryable policy grown shaken fn retryable is_cancelled wait e ≡ true) ⊎ (rest ≡ []))
      × Explains (some e) rest o

  pub record Ends (k : ℕ) (last : Option E) (r : Run W A E) : Type 0 where
    pub finished : is_unfinished r.outcome ≡ false
    pub few : length r.log ≤ k
    pub explained : Explains last r.log r.outcome

  Ends-stop :
      (k : ℕ) (last : Option E) (w : W) (o : Outcome A E)
      → is_unfinished o ≡ false
      → (o ≡ cancelled) ⊎ (o ≡ gave_up last)
      → Ends k last (stop w o)
  Ends-stop k last w o h e = record { finished = h; few = omega arith; explained = e }

  Ends-add :
      (k : ℕ) (last : Option E) (e : E) (r : Run W A E)
      → (is_retryable policy grown shaken fn retryable is_cancelled wait e ≡ true) ⊎ (r.log ≡ [])
      → Ends k (some e) r
      → Ends (suc k) last (add_result (err e) r)
  Ends-add k last e r c h = record {
    finished = h.finished;
    few = omega (arith, h.few);
    explained = (c, h.explained);
  }

  Ends-if :
      (k : ℕ) (last : Option E) (b : Bool) (r s : Run W A E)
      → Ends k last r
      → Ends k last s
      → Ends k last (if b then r else s)
  Ends-if k last true r s h g = h
  Ends-if k last false r s h g = g

  Ends-error :
      (k : ℕ) (attempt : ℤ) (last : Option E) (e : E) (w : W) (again : W → Run W A E)
      → ((v : W) → Ends k (some e) (again v))
      → Ends (suc k) last (
          add_result
            (err e)
            (on_error policy grown shaken fn retryable is_cancelled wait attempt e w again))
  Ends-error k attempt last e w again h =
      let waited =
        wait (next_delay policy grown shaken fn retryable is_cancelled wait attempt w) w in
      elim (Bool-cases (is_retryable policy grown shaken fn retryable is_cancelled wait e)) [
        | inl r ↦ rw r (
            Ends-add k last e (if is_cancelled waited then stop waited cancelled else again waited)
              (inl r)
              (Ends-if k (some e) (is_cancelled waited) (stop waited cancelled) (again waited)
                (Ends-stop k (some e) waited cancelled refl (inl refl)) (h waited)))
        | inr r ↦ rw r (
            Ends-add k last e (stop w (gave_up (some e))) (inr refl)
              (Ends-stop k (some e) w (gave_up (some e)) refl (inr refl)))
      ]

  Ends-called :
      (k : ℕ) (attempt : ℤ) (last : Option E) (r : W × Fallible E A) (again : E → W → Run W A E)
      → ((e : E) (v : W) → Ends k (some e) (again e v))
      → Ends
          (suc k)
          last
          (on_called policy grown shaken fn retryable is_cancelled wait attempt r again)
  Ends-called k attempt last (w, ok a) again h = record {
    finished = refl;
    few = omega arith;
    explained = (refl, refl);
  }
  Ends-called k attempt last (w, err e) again h = Ends-error k attempt last e w (again e) (h e)

  Ends-round :
      (k : ℕ) (attempt : ℤ) (last : Option E) (w : W) (again : E → W → Run W A E)
      → ((e : E) (v : W) → Ends k (some e) (again e v))
      → Ends
          (suc k)
          last
          (round policy grown shaken fn retryable is_cancelled wait attempt last w again)
  Ends-round k attempt last w again h =
      Ends-if (suc k) last (allowed policy grown shaken fn retryable is_cancelled wait attempt) _ _
        (Ends-if (suc k) last (is_cancelled w) _ _
          (Ends-stop (suc k) last w cancelled refl (inl refl))
          (Ends-called k attempt last (fn w) again h))
        (Ends-stop (suc k) last w (gave_up last) refl (inr refl))

  Ends-last :
      (attempt : ℤ) (last : Option E) (w : W) (again : E → W → Run W A E)
      → allowed policy grown shaken fn retryable is_cancelled wait attempt ≡ false
      → Ends 0 last (round policy grown shaken fn retryable is_cancelled wait attempt last w again)
  Ends-last attempt last w again e = rw e (Ends-stop 0 last w (gave_up last) refl (inr refl))

  allowed-past :
      (attempt : ℕ) (k : ℕ)
      → policy.max_attempts ≡ pos (suc k)
      → k + 1 < attempt
      → allowed policy grown shaken fn retryable is_cancelled wait (pos attempt) ≡ false
  allowed-past attempt k m h = rw m (ground (arith, h))

  Ends-do_from :
      (k left fuel attempt : ℕ) (last : Option E) (w : W)
      → policy.max_attempts ≡ pos (suc k)
      → suc k < max_int64
      → attempt + left ≡ k + 2
      → left < fuel
      → Ends left last
          (do_from policy grown shaken fn retryable is_cancelled wait fuel (pos attempt) last w)
  unfolding do_from
  Ends-do_from k left zero attempt last w m b a f = absurd (omega (arith, f))
  Ends-do_from k zero (suc fuel) attempt last w m b a f =
      Ends-last (pos attempt) last w _ (allowed-past attempt k m (omega (arith, a)))
  Ends-do_from k (suc left) (suc fuel) attempt last w m b a f =
      Ends-round left (pos attempt) last w _ (λ e v.
        rw (next_attempt attempt (omega (arith, a, b))) (
          Ends-do_from k left fuel (attempt + 1) (some e) v m b (omega (arith, a))
            (omega (arith, f))))

  -- With a limit that is positive and below the largest `int`, `Do` ends by itself, whatever the
  -- function and the waits do, after at most that many calls of the function. A success is the last
  -- call and its value is returned; after an error that is not retryable there is no other call;
  -- without a success the run is cancelled or gives up with the last error.
  pub do_with-Ends :
      (k : ℕ) (w : W)
      → policy.max_attempts ≡ pos (suc k)
      → suc k < max_int64
      → Ends
          (suc k)
          none
          (do_with policy grown shaken fn retryable is_cancelled wait (suc (suc k)) w)
  unfolding do_with
  do_with-Ends k w m b =
      Ends-do_from k (suc k) (suc (suc k)) 1 none w m b (omega arith) (omega arith)
