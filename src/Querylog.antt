-- ===== src/Querylog.antt =====
-- The query log.
pub mod File
pub mod Json
mod Examples
pub mod Config
pub mod Criterion
pub mod Params
pub mod Reader
pub mod Search
pub mod Store
