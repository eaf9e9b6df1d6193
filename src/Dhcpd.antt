-- ===== src/Dhcpd.antt =====
-- internal/dhcpd: the pool of addresses of the DHCP server in use.
mod Examples
pub mod BitSet
pub mod IpRange
pub mod Pool
