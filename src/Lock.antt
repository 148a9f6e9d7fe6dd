-- ===== src/Lock.antt =====
-- The test-plan lock: `LockManager` (rice_factor/adapters/storage/lock_manager.py), the second reader
-- of the same file in `SafetyEnforcer` (rice_factor/domain/services/safety_enforcer.py), and what
-- the two promise of each other.
pub mod Manager
pub mod Enforcer
pub mod Locking
pub mod Tampering
pub mod Agreement
pub mod Authorization
pub mod Sections
pub mod Prerequisites
mod Examples
mod DiffExamples
