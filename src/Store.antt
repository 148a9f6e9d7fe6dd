-- ===== src/Store.antt =====
-- rice_factor/adapters/storage/{filesystem,approvals,registry}.py and
-- rice_factor/domain/services/artifact_service.py: artifacts as files, their approvals, their index,
-- and the service that moves them from draft to approved to locked.
pub mod Envelope
pub mod Storage
pub mod Approvals
pub mod Service
pub mod Paths
pub mod View
pub mod Load
pub mod Contract
pub mod Moves
pub mod Refinement
pub mod Writes
pub mod Recorded
pub mod Trackers
pub mod Locked
pub mod Gating
pub mod Registry
pub mod Dependencies
mod Sketch
mod Examples
