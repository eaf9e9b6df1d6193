-- ===== src/Filtering.antt =====
-- internal/filtering: what is decided on a requested host name.
mod Examples
mod Sorting
pub mod Outcome
pub mod Rewrites
pub mod Rulelist
pub mod Check
