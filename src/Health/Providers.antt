-- ===== src/Health/Providers.antt =====
-- The providers for HTTP endpoints, gRPC addresses and workers, internal/pkg/health/provider_http.go
-- and provider_worker.go. What the network answers is an argument, with how long it took.
use Prim.Native.String.{◌++◌ as append}
use my_go.Common.{
  ℕ, zero, suc, ℤ, pos, negsuc, pos_part, [], ◌*◌, ◌/◌, Time, Duration, second, String, List,
  Option, none, some, Bool, true, false, not, ◌&&◌, leb_ℤ, ltb_ℤ, length, if◌then◌else◌, Fallible,
  ok, err, StringMap, insert, str_eq,
}
use my_go.Health.{
  HealthStatus, status_up, status_down, status_degraded, other_status, HealthCheckResult, Detail,
  text, number, flag, percent_of,
}

-- `d.Milliseconds()`, for a duration that is measured, so not negative.
abbrev pub milliseconds : Duration → ℤ
milliseconds (pos n) = pos (n / 1000000)
milliseconds (negsuc n) = pos 0

abbrev pub name_or : String → String → String
name_or default name = if str_eq name "" then default else name

abbrev pub nonzero_or : ℕ → ℤ → ℤ
nonzero_or default (pos zero) = pos default
nonzero_or default (pos (suc n)) = pos (suc n)
nonzero_or default (negsuc n) = negsuc n

-- A result with its details so far; the empty status stands for Go's zero value.
abbrev pub begun : String → Time → HealthCheckResult
begun name now = record {
  name = name;
  status = other_status "";
  details = [];
  checked_at = now;
  error = "";
}

abbrev pub with_detail : String → Detail → HealthCheckResult → HealthCheckResult
with_detail key value r = record r { details = insert key value r.details }

abbrev pub ended : HealthStatus → HealthCheckResult → HealthCheckResult
ended status r = record r { status = status }

abbrev pub ended_with : HealthStatus → String → HealthCheckResult → HealthCheckResult
ended_with status message r = record r { status = status; error = message }

-- A failed call: the message, and the error itself among the details.
abbrev pub down_because : String → String → HealthCheckResult → HealthCheckResult
down_because message e r =
    ended_with status_down (append message e) (with_detail "error" (text e) r)

-- Slow answers degrade a provider.
abbrev pub by_latency :
    String
    → ℤ
    → Duration
    → (HealthCheckResult → HealthCheckResult)
    → HealthCheckResult
    → HealthCheckResult
by_latency message threshold latency rest r =
    if ltb_ℤ threshold (milliseconds latency)
    then ended status_degraded (with_detail "message" (text message) r)
    else rest r

pub record HttpProvider : Type 0 where
  pub name : String
  pub url : String
  pub method : String
  pub expected_status : ℤ
  pub timeout : Duration
  pub degraded_ms : ℤ
  pub headers : StringMap String
  pub validate_response : Option (List ℕ → Option String)

-- `NewHTTPProvider`, on a configuration with the fields of a provider; the client is outside.
unfoldable pub new_http_provider : HttpProvider → HttpProvider
new_http_provider c = record c {
  name = name_or "http" c.name;
  method = name_or "GET" c.method;
  expected_status = nonzero_or 200 c.expected_status;
  timeout = nonzero_or (5 * second) c.timeout;
  degraded_ms = nonzero_or 1000 c.degraded_ms;
}

pub record HttpRequest : Type 0 where
  pub method : String
  pub url : String
  pub headers : StringMap String

-- A body is read in full, or reading it fails.
pub record HttpResponse : Type 0 where
  pub status_code : ℤ
  pub body : Fallible String (List ℕ)

-- The client: whether a request can be made of a method and a URL, and what comes back within a
-- timeout, after how long.
pub record Network : Type 0 where
  pub new_request_error : String → String → Option String
  pub send : Duration → HttpRequest → Fallible String HttpResponse × Duration

module _ (itoa : ℤ → String) (network : Network) where
  open network use {new_request_error, send}

  abbrev validation_error : Option (List ℕ → Option String) → List ℕ → Option String
  validation_error none body = none
  validation_error (some f) body = f body

  abbrev after_validation :
      HttpProvider → Duration → Option String → HealthCheckResult → HealthCheckResult
  after_validation p latency (some e) r =
      ended_with status_down (append "response validation failed: " e)
        (with_detail "validation_error" (text e) r)
  after_validation p latency none r =
      by_latency "high latency detected" p.degraded_ms latency (ended status_up) r

  abbrev after_body :
      HttpProvider → Duration → Fallible String (List ℕ) → HealthCheckResult → HealthCheckResult
  after_body p latency (err e) r =
      ended_with status_degraded (append "failed to read response body: " e)
        (with_detail "error" (text e) r)
  after_body p latency (ok body) r =
      after_validation p latency (validation_error p.validate_response body)
        (with_detail "response_size" (number (pos (length body))) r)

  abbrev is_expected : ℤ → ℤ → Bool
  is_expected a b = leb_ℤ a b && leb_ℤ b a

  abbrev unexpected : ℤ → ℤ → String
  unexpected got expected =
      append "unexpected status code: got "
        (append (itoa got) (append ", expected " (itoa expected)))

  abbrev after_send :
      HttpProvider → Fallible String HttpResponse × Duration → HealthCheckResult → HealthCheckResult
  after_send p (err e, latency) r =
      down_because "request failed: " e (with_detail "latency_ms" (number (milliseconds latency)) r)
  after_send p (ok response, latency) r =
      let r1 = with_detail "latency_ms" (number (milliseconds latency)) r in
      let r2 = with_detail "status_code" (number response.status_code) r1 in
      if is_expected response.status_code p.expected_status
      then after_body p latency response.body r2
      else ended_with status_down (unexpected response.status_code p.expected_status)
          (with_detail "expected_status" (number p.expected_status) r2)

  abbrev after_request : HttpProvider → Option String → HealthCheckResult → HealthCheckResult
  after_request p (some e) r = down_because "failed to create request: " e r
  after_request p none r =
      let request : HttpRequest = record { method = p.method; url = p.url; headers = p.headers } in
      after_send p (send p.timeout request) r

  -- `HTTPProvider.Check`
  unfoldable pub check_http : HttpProvider → Time → HealthCheckResult
  check_http p now =
      after_request p (new_request_error p.method p.url)
        (with_detail "method" (text p.method) (with_detail "url" (text p.url) (begun p.name now)))

pub record GrpcProvider : Type 0 where
  pub name : String
  pub address : String
  pub timeout : Duration
  pub degraded_ms : ℤ

unfoldable pub new_grpc_provider : GrpcProvider → GrpcProvider
new_grpc_provider c = record c {
  name = name_or "grpc" c.name;
  timeout = nonzero_or (5 * second) c.timeout;
  degraded_ms = nonzero_or 500 c.degraded_ms;
}

module _ (network : Network) where
  open network use {new_request_error, send}

  abbrev after_connection :
      GrpcProvider → Fallible String HttpResponse × Duration → HealthCheckResult → HealthCheckResult
  after_connection p (err e, latency) r =
      down_because "connection failed: " e
        (with_detail "latency_ms" (number (milliseconds latency)) r)
  after_connection p (ok response, latency) r =
      by_latency "high latency detected" p.degraded_ms latency
        (λ x. ended status_up (with_detail "message" (text "basic connectivity check passed") x))
        (with_detail "latency_ms" (number (milliseconds latency)) r)

  abbrev after_grpc_request : GrpcProvider → Option String → HealthCheckResult → HealthCheckResult
  after_grpc_request p (some e) r = down_because "failed to create request: " e r
  after_grpc_request p none r =
      let request : HttpRequest = record {
        method = "GET";
        url = append "http://" p.address;
        headers = [];
      } in
      after_connection p (send p.timeout request) r

  -- `GRPCProvider.Check`
  unfoldable pub check_grpc : GrpcProvider → Time → HealthCheckResult
  check_grpc p now =
      after_grpc_request p (new_request_error "GET" (append "http://" p.address))
        (with_detail "address" (text p.address) (begun p.name now))

-- What a worker answers; its length or capacity is -1 where it has none.
pub record WorkerHealth : Type 0 where
  pub is_running : Bool
  pub queue_length : ℤ
  pub queue_capacity : ℤ

pub record WorkerProvider : Type 0 where
  pub name : String
  pub max_queue_length : ℤ
  pub degraded_queue_length : ℤ

-- `int(float64(MaxQueueLength) * 0.8)`, as the whole part of four fifths; 0.8 is no float64, and the
-- rounding of the product is left out.
unfoldable pub new_worker_provider : WorkerProvider → WorkerProvider
new_worker_provider c =
    if leb_ℤ c.degraded_queue_length (pos 0)
      && leb_ℤ (pos 0) c.degraded_queue_length
      && ltb_ℤ (pos 0) c.max_queue_length
    then record c { degraded_queue_length = pos (pos_part c.max_queue_length * 4 / 5) }
    else c

abbrev with_length : ℤ → HealthCheckResult → HealthCheckResult
with_length n r = if leb_ℤ (pos 0) n then with_detail "queue_length" (number n) r else r

abbrev with_capacity : ℤ → ℤ → HealthCheckResult → HealthCheckResult
with_capacity n capacity r =
    if leb_ℤ (pos 0) capacity
    then with_detail "queue_usage_percent" (percent_of n capacity)
        (with_detail "queue_capacity" (number capacity) r)
    else r

abbrev by_queue : WorkerProvider → ℤ → HealthCheckResult → HealthCheckResult
by_queue p n r =
    if not (ltb_ℤ (pos 0) p.max_queue_length && leb_ℤ (pos 0) n)
    then ended status_up r
    else if leb_ℤ p.max_queue_length n
    then ended_with status_down "queue is full" r
    else if leb_ℤ p.degraded_queue_length n
    then ended status_degraded (with_detail "reason" (text "queue length approaching capacity") r)
    else ended status_up r

-- `WorkerProvider.Check`, at what the checker answers.
unfoldable pub check_worker : WorkerProvider → WorkerHealth → Time → HealthCheckResult
check_worker p w now =
    let down = ended status_down (begun p.name now) in
    if w.is_running
    then by_queue p w.queue_length (
        with_capacity w.queue_length w.queue_capacity
          (with_length w.queue_length (with_detail "running" (flag true) down)))
    else ended_with status_down "worker is not running" (with_detail "running" (flag false) down)
