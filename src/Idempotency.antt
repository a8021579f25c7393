-- ===== src/Idempotency.antt =====
-- Idempotent execution, internal/pkg/idempotency: the records of types.go, the errors of errors.go
-- and the storage interface.
pub mod Memory
pub mod Redis
pub mod Service
pub mod Replay
pub mod Typed
pub mod Marks
mod RedisTests
pub mod Callers
pub mod Exclusion
pub mod Tests
use my_go.Common.{ℕ, Time, Duration, String, List, [], Option, Bool, Fallible}

pub data Status : Type 0 where
  none_status processing completed failed : Status

pub record Record : Type 0 where
  pub key : String
  pub status : Status
  pub result : List ℕ  -- the bytes
  pub error_msg : String
  pub created_at : Time
  pub updated_at : Time
  pub ttl : Duration

-- A backend with states in `S`; an error of its own is a message. The time argument is what the
-- clock shows during the call.
pub record Storage (S : Type 0) : Type 0 where
  pub load : Time → String → S → Fallible String (Option Record)
  pub try_mark_processing : Time → String → Duration → S → S × Fallible String Bool
  pub save_result : Time → String → List ℕ → Duration → S → S × Option String
  pub save_error : Time → String → String → Duration → S → S × Option String

-- The errors of `Execute`; `exec_failed` is the error of the function itself.
pub data Error : Type 0 where
  already_processing storage_failure serialization_failure : Error
  previously_failed exec_failed : String → Error
