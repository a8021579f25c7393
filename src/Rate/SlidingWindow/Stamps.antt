-- ===== src/Rate/SlidingWindow/Stamps.antt =====
-- Counting the timestamps after a cut.
use my_go.Common.{
  ℕ, zero, suc, ◌+◌, ◌≤◌, ◌≡◌, refl, Time, List, [], ◌∷◌, ◌++◌, if◌then◌else◌, after, length,
  replicate, filter_by, arith,
}

-- How many timestamps are after the cut.
unfoldable pub count_after : Time → List Time → ℕ
count_after cut [] = 0
count_after cut (t ∷ ts) = (if after t cut then 1 else 0) + count_after cut ts

pub count_after-append :
    (cut : Time) (ts us : List Time)
    → count_after cut (ts ++ us) ≡ count_after cut ts + count_after cut us
unfolding count_after
count_after-append cut [] us = omega arith
count_after-append cut (t ∷ ts) us = omega (arith, count_after-append cut ts us)

pub count_after-replicate :
    (cut : Time) (n : ℕ) (t : Time)
    → count_after cut (replicate n t) ≡ (if after t cut then n else 0)
unfolding count_after
count_after-replicate cut zero t = ground arith
count_after-replicate cut (suc n) t = ground (arith, count_after-replicate cut n t)

-- Dropping what is not after an earlier cut changes no later count.
pub count_after-recent :
    (cut early : Time) (ts : List Time)
    → early ≤ cut
    → count_after cut (filter_by (λ t. after t early) ts) ≡ count_after cut ts
unfolding count_after
count_after-recent cut early [] h = refl
count_after-recent cut early (t ∷ ts) h = ground (arith, count_after-recent cut early ts h)

pub length-recent :
    (cut : Time) (ts : List Time) → length (filter_by (λ t. after t cut) ts) ≡ count_after cut ts
unfolding count_after
length-recent cut [] = refl
length-recent cut (t ∷ ts) = ground (arith, length-recent cut ts)

pub count_after-le-length : (cut : Time) (ts : List Time) → count_after cut ts ≤ length ts
unfolding count_after
count_after-le-length cut [] = omega arith
count_after-le-length cut (t ∷ ts) = ground (arith, count_after-le-length cut ts)
