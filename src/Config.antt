-- ===== src/Config.antt =====
-- The configuration: its checks (config/validator.rs) and the migration of old files
-- (config/migrator.rs).
mod Tests
pub mod Validator
pub mod Migrator
