-- ===== src/Aghalg.antt =====
-- internal/aghalg: general containers.
mod Examples
pub mod SortedMap
