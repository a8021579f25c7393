-- ===== src/Health/Verdicts.antt =====
-- The status that the service makes of some results, service.go.
use my_go.Common.{◌≡◌, refl, sym, ap, ◌∙◌, String, List, [], ◌∷◌, Bool, true, false, if◌then◌else◌}
use my_go.Health.{
  HealthStatus, status_up, status_down, status_degraded, other_status, HealthCheckResult,
  AggregationStrategy, strategy_empty, strategy_all, strategy_any, strategy_critical,
  other_strategy, ServiceConfig,
}
use my_go.Health.Checking.{
  Counts, aggregate_all, is_up, is_down, is_degraded, has_status, aggregate_any, aggregate_critical,
  aggregate_by, aggregate_status,
}
use my_go.Health.Loops.{
  critical_only, others_only, count_all-down, count_all-degraded, flag_all-FlagsTell,
}

-- DOWN is worse than DEGRADED, and that is worse than UP; a status that is none of them says nothing.
abbrev pub worse : HealthStatus → HealthStatus → HealthStatus
worse status_down s = status_down
worse status_degraded status_down = status_down
worse status_degraded _ = status_degraded
worse _ s = s

abbrev pub better : HealthStatus → HealthStatus → HealthStatus
better status_up s = status_up
better status_degraded status_up = status_up
better status_degraded _ = status_degraded
better _ s = s

abbrev pub worst : List HealthCheckResult → HealthStatus
worst [] = status_up
worst (r ∷ rs) = worse r.status (worst rs)

abbrev pub best : List HealthCheckResult → HealthStatus
best [] = status_down
best (r ∷ rs) = better r.status (best rs)

-- One that is down degrades what is up otherwise.
abbrev pub degraded_by : Bool → HealthStatus → HealthStatus
degraded_by true status_up = status_degraded
degraded_by _ s = s

abbrev pub verdict : AggregationStrategy → List String → List HealthCheckResult → HealthStatus
verdict strategy_any critical rs = best rs
verdict strategy_critical critical rs =
    degraded_by (has_status is_down (others_only critical rs)) (worst (critical_only critical rs))
verdict _ critical rs = worst rs

abbrev pub verdict_of : ServiceConfig → List HealthCheckResult → HealthStatus
verdict_of c [] = status_down
verdict_of c (r ∷ rs) = verdict c.aggregation_strategy c.critical_providers (r ∷ rs)

abbrev by_flags : Bool → Bool → HealthStatus
by_flags d g = if d then status_down else if g then status_degraded else status_up

worse-by_flags :
    (st : HealthStatus) (d g : Bool)
    → worse st (by_flags d g)
      ≡ by_flags (if is_down st then true else d) (if is_degraded st then true else g)
worse-by_flags status_up d g = refl
worse-by_flags status_down d g = refl
worse-by_flags status_degraded true g = refl
worse-by_flags status_degraded false true = refl
worse-by_flags status_degraded false false = refl
worse-by_flags (other_status t) d g = refl

worst-by_flags :
    (rs : List HealthCheckResult)
    → worst rs ≡ by_flags (has_status is_down rs) (has_status is_degraded rs)
unfolding has_status
worst-by_flags [] = refl
worst-by_flags (r ∷ rs) = ap (worse r.status) (worst-by_flags rs) ∙ worse-by_flags r.status _ _

abbrev by_best : Bool → Bool → HealthStatus
by_best u g = if u then status_up else if g then status_degraded else status_down

better-by_best :
    (st : HealthStatus) (u g : Bool)
    → better st (by_best u g)
      ≡ by_best (if is_up st then true else u) (if is_degraded st then true else g)
better-by_best status_up u g = refl
better-by_best status_down u g = refl
better-by_best status_degraded true g = refl
better-by_best status_degraded false true = refl
better-by_best status_degraded false false = refl
better-by_best (other_status t) u g = refl

best-by_best :
    (rs : List HealthCheckResult)
    → best rs ≡ by_best (has_status is_up rs) (has_status is_degraded rs)
unfolding has_status
best-by_best [] = refl
best-by_best (r ∷ rs) = ap (better r.status) (best-by_best rs) ∙ better-by_best r.status _ _

aggregate_all-worst : (rs : List HealthCheckResult) → aggregate_all rs ≡ worst rs
unfolding aggregate_all
aggregate_all-worst rs =
    let c : Counts = record { up_count = 0; down_count = 0; degraded_count = 0 } in
    rw (aggregate_all, count_all-down rs c) (rw (count_all-degraded rs c) (sym (worst-by_flags rs)))

degraded_by-worst :
    (d g o : Bool)
    → (if d
        then status_down
        else if g
        then status_degraded
        else if o
        then status_degraded
        else status_up)
      ≡ degraded_by o (by_flags d g)
degraded_by-worst true g true = refl
degraded_by-worst true g false = refl
degraded_by-worst false true true = refl
degraded_by-worst false true false = refl
degraded_by-worst false false true = refl
degraded_by-worst false false false = refl

aggregate_critical-worst :
    (critical : List String) (rs : List HealthCheckResult)
    → aggregate_critical critical rs
      ≡ degraded_by
          (has_status is_down (others_only critical rs))
          (worst (critical_only critical rs))
unfolding aggregate_critical
aggregate_critical-worst critical rs =
    let (d, g, o) = flag_all-FlagsTell critical rs (record {
      critical_down = false;
      critical_degraded = false;
      has_non_critical_down = false;
    }) in
    rw (aggregate_critical, d)
      (rw g (
        rw o (
          degraded_by-worst _ _ _
          ∙ ap (degraded_by (has_status is_down (others_only critical rs)))
              (sym (worst-by_flags (critical_only critical rs))))))

aggregate_by-verdict :
    (strategy : AggregationStrategy) (critical : List String) (rs : List HealthCheckResult)
    → aggregate_by strategy critical rs ≡ verdict strategy critical rs
unfolding aggregate_any
aggregate_by-verdict strategy_empty critical rs = aggregate_all-worst rs
aggregate_by-verdict strategy_all critical rs = aggregate_all-worst rs
aggregate_by-verdict strategy_any critical rs = sym (best-by_best rs)
aggregate_by-verdict strategy_critical critical rs = aggregate_critical-worst critical rs
aggregate_by-verdict (other_strategy t) critical rs = aggregate_all-worst rs

-- The status that the service makes of some results is DOWN where there are none. By the strategy ANY
-- it is the best of them, and DOWN where none is UP or DEGRADED; by CRITICAL it is the worst of the
-- critical ones, where a provider that is not critical and is down degrades what is up; by any other
-- strategy it is the worst of all. A status that is none of UP, DEGRADED and DOWN counts for nothing,
-- and the worst of nothing is UP, also where no critical provider has a result.
pub aggregate_status-verdict_of :
    (c : ServiceConfig) (rs : List HealthCheckResult) → aggregate_status c rs ≡ verdict_of c rs
unfolding aggregate_status
aggregate_status-verdict_of c [] = refl
aggregate_status-verdict_of c (r ∷ rs) =
    aggregate_by-verdict c.aggregation_strategy c.critical_providers (r ∷ rs)
