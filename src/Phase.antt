-- ===== src/Phase.antt =====
-- Phase gating (rice_factor/domain/services/phase_service.py): the service, what its gate lets
-- through, and what happens to the gate as artifacts are approved and locked.
pub mod Service
pub mod Gate
pub mod Progress
mod Examples
