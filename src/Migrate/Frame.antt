-- ===== src/Migrate/Frame.antt =====
-- The top-level keys that a migration may change.
pub mod Defs
pub mod Early
pub mod Middle
pub mod Late
