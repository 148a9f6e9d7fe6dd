-- ===== src/Ci.antt =====
-- The CI pipeline (rice_factor/domain/ci): the result models, the stage loop and its laws.
pub mod Models
pub mod Pipeline
pub mod Order
pub mod FailFast
mod Examples
