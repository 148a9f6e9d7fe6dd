-- ===== src/Schema.antt =====
-- Versions of the artifact schemas and the migrations between them
-- (rice_factor/domain/services/schema_version_manager.py).
pub mod Version
pub mod Manager
pub mod Path
pub mod Migrate
pub mod Validate
mod Examples
