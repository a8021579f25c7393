-- ===== src/Rate/Tests.antt =====
-- Tests of the rate limiter, and its theorems at concrete inputs. Integers stand in for the floats.
pub mod Floats
mod Windows
mod Buckets
mod Limits
mod Middleware
