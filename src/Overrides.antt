-- ===== src/Overrides.antt =====
-- rice_factor/domain/services/override_scope_manager.py: the overrides in force, their limits and
-- their CI flags.
pub mod Records
pub mod Files
pub mod Manager
pub mod Limits
pub mod Saved
pub mod Reload
pub mod Paths
pub mod Coverage
pub mod Report
pub mod Flags
mod Examples
