-- ===== src/Health/Starting.antt =====
-- The first responses of a service in the asynchronous mode, service.go.
use my_go.Common.{◌≡◌, refl, Time, List, [], ◌∷◌, true, if◌then◌else◌, ◌∙◌, ap}
use my_go.Health.{status_down, ServiceConfig, HealthProvider, Service}
use my_go.Health.Checking.{
  new_service, register_provider, check, get_cached_results, get_health_response, http_status_code,
  readiness_status_code, check_providers, aggregate_status, results_of, is_down, is_up,
}

abbrev pub register_all : List HealthProvider → Service → Service
register_all [] s = s
register_all (p ∷ ps) s = register_all ps (register_provider p s)

-- Until the next check, a registered provider changes nothing in the response.
register_all-cached :
    (ps : List HealthProvider) (s : Service)
    → ((register_all ps s).cached_status ≡ s.cached_status)
      × ((register_all ps s).config ≡ s.config)
unfolding register_provider
register_all-cached [] s = (refl, refl)
register_all-cached (p ∷ ps) s = register_all-cached ps (register_provider p s)

-- In the asynchronous mode a check leaves the configuration, and stores what it found, if that is
-- not what a service without providers says anyway.
check_providers-cached :
    (now : Time) (ps : List HealthProvider) (s : Service)
    → s.providers ≡ ps
    → s.config.async_mode ≡ true
    → s.cached_status ≡ status_down
    → ((check_providers now ps s).0.config ≡ s.config)
      × ((check_providers now ps s).0.cached_status ≡ aggregate_status s.config (results_of now s))
unfolding aggregate_status
check_providers-cached now [] s same e d = rw same (refl, d)
check_providers-cached now (p ∷ ps) s same e d = rw e (refl, refl)

codes_of_cached :
    (now : Time) (s : Service)
    → s.config.async_mode ≡ true
    → (http_status_code (get_health_response now s)
        ≡ (if is_down s.cached_status then 503 else 200))
      × (readiness_status_code (get_health_response now s)
          ≡ (if is_up s.cached_status then 200 else 503))
unfolding get_health_response get_cached_results http_status_code readiness_status_code
codes_of_cached now s e = rw (get_health_response, e) (refl, refl)

-- In the asynchronous mode the first check runs in a goroutine, in any order with the registrations:
-- some providers are registered before it, and others after it and before the next check. Until that
-- one the status codes are those of the results of the first providers alone, whatever the others
-- would answer; so where none was registered before the first check, they are 503.
pub get_health_response-new_service :
    (c : ServiceConfig) (first later : Time) (before after : List HealthProvider)
    → c.async_mode ≡ true
    → let started = register_all before (new_service c) in
      let status = aggregate_status started.config (results_of first started) in
      let response = get_health_response later (register_all after (check first started).0) in
      (http_status_code response ≡ (if is_down status then 503 else 200))
      × (readiness_status_code response ≡ (if is_up status then 200 else 503))
unfolding new_service check
get_health_response-new_service c first later before after e =
    let started = register_all before (new_service c) in
    let (down, config_started) = register_all-cached before (new_service c) in
    let is_async = ap (λ d. d.async_mode) config_started ∙ e in
    let (config_checked, cached) =
      check_providers-cached first started.providers started refl is_async down in
    let (kept, same) = register_all-cached after (check first started).0 in
    let status = aggregate_status started.config (results_of first started) in
    let final = register_all after (check first started).0 in
    let (http, ready) =
      codes_of_cached later final (ap (λ d. d.async_mode) (same ∙ config_checked) ∙ is_async) in
    (
      http ∙ ap (λ st. if is_down st then 503 else 200) (kept ∙ cached),
      ready ∙ ap (λ st. if is_up st then 200 else 503) (kept ∙ cached),
    )
