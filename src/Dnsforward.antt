-- ===== src/Dnsforward.antt =====
-- internal/dnsforward: what happens to a DNS request before it is answered.
mod Examples
pub mod Access
