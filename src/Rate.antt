-- ===== src/Rate.antt =====
-- The rate limiter, internal/pkg/rate.
pub mod Types
pub mod Config
pub mod Memory
pub mod Redis
pub mod History
pub mod FixedWindow
pub mod SlidingWindow
pub mod TokenBucket
pub mod LeakyBucket
pub mod Laws
pub mod Buckets
pub mod Limiter
pub mod Middleware
mod Tests
