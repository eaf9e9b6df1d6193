-- ===== src/Migrate.antt =====
-- internal/configmigrate: the migrations of the configuration file.
mod Examples
pub mod Yaml
pub mod Env
pub mod Frame
pub mod Early
pub mod Quic
pub mod Middle
pub mod Late
pub mod Upgrade
pub mod Sections
