-- ===== src/Pgnotify/Attempts.antt =====
-- The attempts to reconnect end, and none waits longer than the configuration allows.
use my_go.Common.{
  ℕ, zero, suc, ◌+◌, ◌≤◌, ◌<◌, ◌≡◌, refl, ap, ◌∙◌, pos, ◌≤ℤ◌, Time, Duration, List, [], ◌∷◌, length,
  Option, none, some, Bool, true, false, if◌then◌else◌, arith, String,
}
use my_go.Pgnotify.{Config, ConnectionProvider, Notifier}
use my_go.Pgnotify.Settings.{validate}
use my_go.Pgnotify.Reconnecting.{
  Reconnected, unfinished, cancelled, gave_up_at, Attempt, Run, next_backoff, reconnect_from,
  reconnect, add_attempt, round, after_failure, on_tried, ends, exhausted, told_attempt,
}

abbrev pub is_unfinished : Reconnected → Bool
is_unfinished unfinished = true
is_unfinished _ = false

abbrev pub WaitsAtMost : Duration → List Attempt → Type 0
WaitsAtMost max [] = Unit
WaitsAtMost max (a ∷ rest) = (a.backoff ≤ℤ max) × WaitsAtMost max rest

-- The run ended by itself, after at most `k` attempts that waited at most `max`.
pub record EndsWithin {W : Type 0} (k : ℕ) (max : Duration) (r : Run W) : Type 0 where
  pub finished : is_unfinished r.ending ≡ false
  pub few : length r.attempts ≤ k
  pub short : WaitsAtMost max r.attempts

validate-intervals :
    {W : Type 0} (c : Config W)
    → validate c ≡ none
    → c.reconnect_interval ≤ℤ c.max_reconnect_interval
unfolding validate
validate-intervals c e = ground (arith, e)

module _ {W : Type 0} (config : Config W) (provider : ConnectionProvider W) (clock : W → Time)
    (is_cancelled : W → Bool) (wait : Duration → W → W) where
  next_backoff-short :
      (b : Duration)
      → next_backoff config provider clock is_cancelled wait b ≤ℤ config.max_reconnect_interval
  next_backoff-short b = ground arith

  EndsWithin-add :
      (k : ℕ) (attempt : ℕ) (b : Duration) (r : Run W)
      → b ≤ℤ config.max_reconnect_interval
      → EndsWithin k config.max_reconnect_interval r
      → EndsWithin
          (suc k)
          config.max_reconnect_interval
          (add_attempt config provider clock is_cancelled wait attempt b r)
  EndsWithin-add k attempt b r h e = record {
    finished = e.finished;
    few = omega (arith, e.few);
    short = (h, e.short);
  }

  EndsWithin-tried :
      (k attempt : ℕ) (n : Notifier W) (r : W × Option String) (again : Run W)
      → EndsWithin k config.max_reconnect_interval again
      → EndsWithin k config.max_reconnect_interval
          (on_tried config provider clock is_cancelled wait attempt n r again)
  EndsWithin-tried k attempt n (w, none) again h = record {
    finished = refl;
    few = omega arith;
    short = tt;
  }
  EndsWithin-tried k attempt n (w, some e) again h = h

  EndsWithin-ends :
      (k : ℕ) (n : Notifier W) (e : Reconnected)
      → is_unfinished e ≡ false
      → EndsWithin k config.max_reconnect_interval
          (ends config provider clock is_cancelled wait n e)
  EndsWithin-ends k n e h = record { finished = h; few = omega arith; short = tt }

  EndsWithin-if :
      (k : ℕ) (b : Bool) (r s : Run W)
      → EndsWithin k config.max_reconnect_interval r
      → EndsWithin k config.max_reconnect_interval s
      → EndsWithin k config.max_reconnect_interval (if b then r else s)
  EndsWithin-if k true r s h g = h
  EndsWithin-if k false r s h g = g

  EndsWithin-then :
      (k : ℕ) (b : Bool) (r s : Run W)
      → b ≡ true
      → EndsWithin k config.max_reconnect_interval r
      → EndsWithin k config.max_reconnect_interval (if b then r else s)
  EndsWithin-then k b r s e h = rw e h

  exhausted_at :
      (attempt : ℕ)
      → config.max_reconnect_attempts ≡ pos attempt
      → 0 < attempt
      → exhausted config provider clock is_cancelled wait attempt ≡ true
  exhausted_at attempt m p = rw m (ground arith)

  EndsWithin-round :
      (k attempt : ℕ) (b : Duration) (n : Notifier W) (again : Run W)
      → b ≤ℤ config.max_reconnect_interval
      → EndsWithin k config.max_reconnect_interval again
      → EndsWithin
          (suc k)
          config.max_reconnect_interval
          (round config provider clock is_cancelled wait attempt b n again)
  EndsWithin-round k attempt b n again h e =
      let waited =
        wait b (told_attempt config provider clock is_cancelled wait (attempt + 1) b n.world) in
      EndsWithin-if (suc k) (is_cancelled n.world) _ _ (EndsWithin-ends (suc k) n cancelled refl) (
        EndsWithin-if (suc k) (exhausted config provider clock is_cancelled wait attempt) _ _
          (EndsWithin-ends (suc k) _ (gave_up_at attempt) refl)
          (EndsWithin-add k (attempt + 1) b _ h (
            EndsWithin-if k (is_cancelled waited) _ _
              (EndsWithin-ends k (record n { world = waited }) cancelled refl)
              (EndsWithin-tried k (attempt + 1) n (provider.reconnect waited) again e))))

  EndsWithin-last :
      (attempt : ℕ) (b : Duration) (n : Notifier W) (again : Run W)
      → exhausted config provider clock is_cancelled wait attempt ≡ true
      → EndsWithin 0 config.max_reconnect_interval
          (round config provider clock is_cancelled wait attempt b n again)
  EndsWithin-last attempt b n again e =
      EndsWithin-if 0 (is_cancelled n.world) _ _ (EndsWithin-ends 0 n cancelled refl) (
        EndsWithin-then 0 (exhausted config provider clock is_cancelled wait attempt) _ _ e
          (EndsWithin-ends 0 _ (gave_up_at attempt) refl))

  EndsWithin-reconnect_from :
      (k fuel attempt : ℕ) (b : Duration) (n : Notifier W)
      → config.max_reconnect_attempts ≡ pos (attempt + k)
      → 0 < attempt + k
      → k < fuel
      → b ≤ℤ config.max_reconnect_interval
      → EndsWithin k config.max_reconnect_interval
          (reconnect_from config provider clock is_cancelled wait fuel attempt b n)
  unfolding reconnect_from
  EndsWithin-reconnect_from k zero attempt b n m p f h = absurd (omega (arith, f))
  EndsWithin-reconnect_from zero (suc fuel) attempt b n m p f h =
      EndsWithin-last attempt b n _
        (exhausted_at attempt (m ∙ ap pos (omega arith)) (omega (arith, p)))
  EndsWithin-reconnect_from (suc k) (suc fuel) attempt b n m p f h =
      EndsWithin-round k attempt b n _ h (
        EndsWithin-reconnect_from k fuel (attempt + 1)
          (next_backoff config provider clock is_cancelled wait b)
          (after_failure config provider clock is_cancelled wait attempt b n)
          (m ∙ ap pos (omega arith)) (omega arith) (omega (arith, f)) (next_backoff-short b))

  -- With a valid configuration that allows a positive number of attempts, a run of attempts to
  -- reconnect ends by itself, whatever the connection does: it is cancelled, succeeds or gives up
  -- after at most that number of attempts, and no attempt waits longer than the longest interval.
  pub reconnect-EndsWithin :
      (k : ℕ) (n : Notifier W)
      → validate config ≡ none
      → config.max_reconnect_attempts ≡ pos (suc k)
      → EndsWithin
          (suc k)
          config.max_reconnect_interval
          (reconnect config provider clock is_cancelled wait (suc (suc k)) n)
  unfolding reconnect
  reconnect-EndsWithin k n v m =
      EndsWithin-reconnect_from (suc k) (suc (suc k)) 0 config.reconnect_interval n
        (m ∙ ap pos (omega arith)) (omega arith) (omega arith) (validate-intervals config v)
