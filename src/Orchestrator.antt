-- ===== src/Orchestrator.antt =====
-- rice_factor/domain/services/lifecycle_orchestrator.py: the phases of a project run by handlers, with
-- a state on disk to resume from.
pub mod Phases
pub mod Files
pub mod Service
pub mod Run
pub mod Twice
pub mod Progress
pub mod Resume
mod Examples
