-- ===== src/Stats.antt =====
-- internal/stats: the counters of an hour.
mod Examples
pub mod Unit
pub mod Series
