-- ===== src/Review.antt =====
-- rice_factor/domain/models/lifecycle.py and rice_factor/domain/services/lifecycle_service.py: when an
-- artifact is due for review, and when that blocks work.
pub mod Policy
pub mod Service
pub mod Blocking
pub mod Prompts
pub mod Config
pub mod Recording
mod Examples
