-- ===== src/Rate.antt =====
-- Rate limiting (rice_factor/domain/services/rate_limiter.py): the token bucket, the limiter, the
-- blocking loop of `acquire`, and what the limits bound.
pub mod Bucket
pub mod Limiter
pub mod Acquire
pub mod Steps
pub mod Concurrency
pub mod Checked
pub mod Spending
pub mod Sections
pub mod Renewal
pub mod InFlight
pub mod Metered
pub mod Throughput
pub mod TokenBudget
pub mod Config
mod Examples
