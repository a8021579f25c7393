-- ===== src/Rate/Middleware.antt =====
-- The middleware for HTTP, internal/pkg/rate/middleware_http.go, over any storage. net/http is outside:
-- a request is what the code reads of it, and a writer acts on a world `W`, as the next handler does.
pub mod Serving
use Prim.Native.String.{◌++◌ as append}
use my_go.Common.{
  ℤ, pos, Time, Duration, String, List, [], ◌∷◌, Option, none, some, Bool, true, false, ltb_ℤ,
  add_time, str_eq, if◌then◌else◌,
}
use my_go.Redis.{whole_seconds}
use my_go.Rate.Types.{FloatOps, Storage, Result, Error}
use my_go.Rate.Limiter.{LimiterImpl, Reservation, reserve}
use my_go.Rate.Redis.{unix}

-- `header` is `r.Header.Get`, and `value` a value of the context as `%v` prints it.
pub record Request : Type 0 where
  pub header : String → String
  pub remote_addr : String
  pub path : String
  pub value : String → Option String

pub record Writer (W : Type 0) : Type 0 where
  pub set_header : String → String → W → W
  pub http_error : String → ℤ → W → W
  pub write_header : ℤ → W → W
  pub write : String → W → W

unfoldable pub default_key_func : Request → String
default_key_func r =
    let xff = r.header "X-Forwarded-For" in
    let xri = r.header "X-Real-IP" in
    if str_eq xff "" then (if str_eq xri "" then r.remote_addr else xri) else xff

unfoldable pub path_key_func : Request → String
path_key_func r = append (default_key_func r) (append ":" r.path)

unfoldable pub header_key_func : String → Request → String
header_key_func header r =
    if str_eq (r.header header) "" then default_key_func r else r.header header

abbrev user_or_default : Request → Option String → String
user_or_default r none = default_key_func r
user_or_default r (some user_id) = append "user:" user_id

unfoldable pub user_key_func : String → Request → String
user_key_func context_key r = user_or_default r (r.value context_key)

pub record HttpMiddleware (W : Type 0) : Type 0 where
  pub limiter : LimiterImpl
  pub key_func : Request → String
  pub on_limited : Request → Result → W → W
  pub skip_func : Option (Request → Bool)

-- `itoa` is strconv.FormatInt with base 10.
module _ {W : Type 0} (itoa : ℤ → String) (writer : Writer W) where
  open writer use {set_header, http_error, write_header, write}

  unfoldable pub default_on_limited : Request → Result → W → W
  default_on_limited r result w =
      let seconds = itoa (whole_seconds result.retry_after) in
      let w1 = set_header "Content-Type" "application/json" w in
      let w2 = set_header "X-RateLimit-Retry-After" seconds w1 in
      let w3 = set_header "Retry-After" seconds w2 in
      let w4 = write_header (pos 429) w3 in
      write (append "{\"error\":\"rate limit exceeded\",\"retry_after\":" (append seconds "}")) w4

  -- The options of `NewHTTPMiddleware` are applied in their order.
  unfoldable pub apply_options :
      List (HttpMiddleware W → HttpMiddleware W) → HttpMiddleware W → HttpMiddleware W
  apply_options [] m = m
  apply_options (opt ∷ opts) m = apply_options opts (opt m)

  unfoldable pub new_http_middleware :
      LimiterImpl → List (HttpMiddleware W → HttpMiddleware W) → HttpMiddleware W
  new_http_middleware limiter opts =
      let m : HttpMiddleware W = record {
        limiter = limiter;
        key_func = default_key_func;
        on_limited = default_on_limited;
        skip_func = none;
      } in
      apply_options opts m

  abbrev is_skipped : Option (Request → Bool) → Request → Bool
  is_skipped none r = false
  is_skipped (some f) r = f r

  -- The result that `onLimited` gets; its other fields are zero.
  abbrev pub limited : Duration → Result
  limited delay = record {
    allowed = false;
    limit = pos 0;
    remaining = pos 0;
    retry_after = delay;
    reset_at = 0;
  }

  -- The headers of a request that is let through, at a clock reading of their own.
  abbrev pub with_headers : LimiterImpl → Time → Reservation → W → W
  with_headers l later r w =
      let w1 = set_header "X-RateLimit-Limit" (itoa l.config.rate) w in
      let w2 = set_header "X-RateLimit-Remaining" (itoa r.tokens) w1 in
      if ltb_ℤ (pos 0) r.delay
      then set_header "X-RateLimit-Reset" (itoa (unix (add_time later r.delay))) w2
      else w2

  -- From the answer of `Reserve` on.
  abbrev pub answered :
      HttpMiddleware W → (Request → W → W) → Time → Request → Reservation × Option Error → W → W
  answered m next later r (reservation, some e) w = http_error "Internal Server Error" (pos 500) w
  answered m next later r (reservation, none) w =
      if reservation.is_ok
      then next r (with_headers m.limiter later reservation w)
      else m.on_limited r (limited reservation.delay) w

  module _ (fl : FloatOps) {S : Type 0} (storage : Storage fl.Float S) where
    -- The handler that `Middleware` returns; what it tells the metrics is left out.
    unfoldable pub middleware :
        HttpMiddleware W → (Request → W → W) → Time → Time → Request → S × W → S × W
    middleware m next now later r (s, w) =
        let (s', answer) = reserve fl storage m.limiter now (m.key_func r) s in
        if is_skipped m.skip_func r then (s, next r w) else (s', answered m next later r answer w)
