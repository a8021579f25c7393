-- ===== src/Retry/Tests.antt =====
-- A run of retries on a concrete input: the function fails once and then succeeds.
use my_go.Common.{ℕ, zero, suc, arith, refl, pos, none, false, Fallible, ok, err}
use my_go.Retry.{Policy, do_with}
use my_go.Retry.Ending.{Ends, do_with-Ends}

abbrev thrice : Policy
thrice = record { base_delay = pos 1; max_delay = pos 8; jitter = false; max_attempts = pos 3 }

abbrev second_time : ℕ → ℕ × Fallible ℕ ℕ
second_time zero = (1, err 7)
second_time (suc n) = (2, ok 5)

do_with-Ends_example :
    Ends thrice
      (λ d n. d)
      (λ w d. d)
      second_time
      none
      (λ w. false)
      (λ d w. w)
      3
      none
      (do_with thrice (λ d n. d) (λ w d. d) second_time none (λ w. false) (λ d w. w) 4 0)
do_with-Ends_example =
    do_with-Ends thrice (λ d n. d) (λ w d. d) second_time none (λ w. false) (λ d w. w) 2 0 refl
      (omega arith)
