-- ===== src/Diffs.antt =====
-- rice_factor/domain/services/diff_service.py: diffs on their way through the review.
pub mod Service
pub mod Index
pub mod Recent
pub mod Files
mod Examples
