-- ===== src/Health/Loops.antt =====
-- What the counters and the flags of the loops over the results say, service.go.
use my_go.Common.{
  ◌≡◌, refl, sym, ap, ◌∙◌, ltb, String, List, [], ◌∷◌, filter_by, Bool, true, false, not, ◌||◌,
  if◌then◌else◌, arith,
}
use my_go.Health.{
  HealthStatus, status_up, status_down, status_degraded, other_status, HealthCheckResult,
}
use my_go.Health.Checking.{
  Counts, count_status, count_all, is_down, is_degraded, has_status, Flags, is_critical,
  flag_status, flag_all,
}

abbrev pub critical_only : List String → List HealthCheckResult → List HealthCheckResult
critical_only critical rs = filter_by (λ r. is_critical critical r.name) rs

abbrev pub others_only : List String → List HealthCheckResult → List HealthCheckResult
others_only critical rs = filter_by (λ r. not (is_critical critical r.name)) rs

count_status-down :
    (st : HealthStatus) (c : Counts) (x : Bool)
    → (ltb 0 (count_status st c).down_count || x)
      ≡ (ltb 0 c.down_count || (if is_down st then true else x))
count_status-down status_up c x = refl
count_status-down status_down c x = ground arith
count_status-down status_degraded c x = refl
count_status-down (other_status t) c x = refl

count_status-degraded :
    (st : HealthStatus) (c : Counts) (x : Bool)
    → (ltb 0 (count_status st c).degraded_count || x)
      ≡ (ltb 0 c.degraded_count || (if is_degraded st then true else x))
count_status-degraded status_up c x = refl
count_status-degraded status_down c x = refl
count_status-degraded status_degraded c x = ground arith
count_status-degraded (other_status t) c x = refl

pub count_all-down :
    (rs : List HealthCheckResult) (c : Counts)
    → ltb 0 (count_all rs c).down_count ≡ (ltb 0 c.down_count || has_status is_down rs)
unfolding count_all has_status
count_all-down [] c = ground arith
count_all-down (r ∷ rs) c =
    count_all-down rs (count_status r.status c)
    ∙ count_status-down r.status c (has_status is_down rs)

pub count_all-degraded :
    (rs : List HealthCheckResult) (c : Counts)
    → ltb 0 (count_all rs c).degraded_count ≡ (ltb 0 c.degraded_count || has_status is_degraded rs)
unfolding count_all has_status
count_all-degraded [] c = ground arith
count_all-degraded (r ∷ rs) c =
    count_all-degraded rs (count_status r.status c)
    ∙ count_status-degraded r.status c (has_status is_degraded rs)

has_status-if :
    (p : HealthStatus → Bool) (b : Bool) (r : HealthCheckResult) (rs : List HealthCheckResult)
    → has_status p (if b then r ∷ rs else rs)
      ≡ (if b then (if p r.status then true else has_status p rs) else has_status p rs)
unfolding has_status
has_status-if p true r rs = refl
has_status-if p false r rs = refl

flag_status-down :
    (b : Bool) (st : HealthStatus) (f : Flags) (x : Bool)
    → ((flag_status b st f).critical_down || x)
      ≡ (f.critical_down || (if b then (if is_down st then true else x) else x))
flag_status-down true status_up f x = refl
flag_status-down true status_down f x = ground arith
flag_status-down true status_degraded f x = refl
flag_status-down true (other_status t) f x = refl
flag_status-down false status_up f x = refl
flag_status-down false status_down f x = refl
flag_status-down false status_degraded f x = refl
flag_status-down false (other_status t) f x = refl

flag_status-degraded :
    (b : Bool) (st : HealthStatus) (f : Flags) (x : Bool)
    → ((flag_status b st f).critical_degraded || x)
      ≡ (f.critical_degraded || (if b then (if is_degraded st then true else x) else x))
flag_status-degraded true status_up f x = refl
flag_status-degraded true status_down f x = refl
flag_status-degraded true status_degraded f x = ground arith
flag_status-degraded true (other_status t) f x = refl
flag_status-degraded false status_up f x = refl
flag_status-degraded false status_down f x = refl
flag_status-degraded false status_degraded f x = refl
flag_status-degraded false (other_status t) f x = refl

flag_status-other_down :
    (b : Bool) (st : HealthStatus) (f : Flags) (x : Bool)
    → ((flag_status b st f).has_non_critical_down || x)
      ≡ (f.has_non_critical_down || (if not b then (if is_down st then true else x) else x))
flag_status-other_down true status_up f x = refl
flag_status-other_down true status_down f x = refl
flag_status-other_down true status_degraded f x = refl
flag_status-other_down true (other_status t) f x = refl
flag_status-other_down false status_up f x = refl
flag_status-other_down false status_down f x = ground arith
flag_status-other_down false status_degraded f x = refl
flag_status-other_down false (other_status t) f x = refl

-- What the flags say after the loop, given what they said before.
abbrev pub FlagsTell : List String → List HealthCheckResult → Flags → Flags → Type 0
FlagsTell critical rs f f' =
    (f'.critical_down ≡ (f.critical_down || has_status is_down (critical_only critical rs)))
    × (f'.critical_degraded
        ≡ (f.critical_degraded || has_status is_degraded (critical_only critical rs)))
    × (f'.has_non_critical_down
        ≡ (f.has_non_critical_down || has_status is_down (others_only critical rs)))

pub flag_all-FlagsTell :
    (critical : List String) (rs : List HealthCheckResult) (f : Flags)
    → FlagsTell critical rs f (flag_all critical rs f)
unfolding flag_all has_status
flag_all-FlagsTell critical [] f = (ground arith, ground arith, ground arith)
flag_all-FlagsTell critical (r ∷ rs) f =
    let b = is_critical critical r.name in
    let (d, g, o) = flag_all-FlagsTell critical rs (flag_status b r.status f) in
    (
      d
          ∙ flag_status-down b r.status f _
          ∙ ap (λ x. f.critical_down || x)
              (sym (has_status-if is_down b r (critical_only critical rs))),
      g
          ∙ flag_status-degraded b r.status f _
          ∙ ap (λ x. f.critical_degraded || x)
              (sym (has_status-if is_degraded b r (critical_only critical rs))),
      o
          ∙ flag_status-other_down b r.status f _
          ∙ ap (λ x. f.has_non_critical_down || x)
              (sym (has_status-if is_down (not b) r (others_only critical rs))),
    )
