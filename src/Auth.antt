-- ===== src/Auth.antt =====
-- internal/home/authratelimiter.go and internal/aghuser: failed logins, and web sessions.
mod Examples
pub mod RateLimiter
pub mod Sessions
