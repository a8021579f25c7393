-- ===== src/Worker.antt =====
-- The task worker, internal/pkg/worker: the data of task.go, config.go, handler.go and provider.go.
pub mod Tasks
pub mod Middlewares
pub mod Metrics
pub mod Processing
pub mod Draining
pub mod Redis
pub mod RoundTrip
pub mod Streams
pub mod Tests
pub mod StreamTests
use my_go.Common.{
  ℕ, ℤ, pos, Time, Duration, String, List, Option, Bool, Fallible, StringMap, second, ◌*◌,
}

pub record Task : Type 0 where
  pub id : String
  pub payload : List ℕ  -- the bytes
  pub metadata : StringMap String
  pub retry : ℤ
  pub max_retry : ℤ
  pub timeout : Duration
  pub created_at : Time
  pub scheduled_at : Time

pub data BackoffStrategy : Type 0 where
  backoff_linear backoff_exponential backoff_fixed other_backoff : BackoffStrategy

pub record Config : Type 0 where
  pub concurrency : ℤ
  pub backoff_strategy : BackoffStrategy
  pub base_backoff : Duration
  pub max_backoff : Duration
  pub shutdown_timeout : Duration
  pub poll_interval : Duration
  pub error_backoff : Duration

unfoldable pub default_config : Config
default_config = record {
  concurrency = pos 10;
  backoff_strategy = backoff_exponential;
  base_backoff = pos second;
  max_backoff = pos (300 * second);
  shutdown_timeout = pos (30 * second);
  poll_interval = pos second;
  error_backoff = pos (5 * second);
}

-- What the handlers look up in a context: its deadline and its correlation id.
pub record Context : Type 0 where
  pub deadline : Option Time
  pub correlation_id : Option String

-- How a call of a handler ends: it returns nil or an error, or it panics. `fatal` is a panic in a
-- goroutine that the call started: no deferred function of the caller sees it, and the process ends.
pub data Ending : Type 0 where
  succeeded : Ending
  failed panicked fatal : String → Ending

-- A handler acts on a world `W`.
abbrev pub Handler : Type 0 → Type 0
Handler W = Context → Task → W → W × Ending

-- A provider with states in `S`, given the clock.
pub record Provider (S : Type 0) : Type 0 where
  pub fetch : S → S × Fallible String (Option Task)
  pub ack : Task → S → S × Option String
  pub nack : Time → Task → Bool → S → S × Option String
  pub close : S → S × Option String
