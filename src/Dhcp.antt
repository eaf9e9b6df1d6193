-- ===== src/Dhcp.antt =====
-- internal/dhcpsvc: the lease index, the leases of a network interface, and the server.
mod Examples
pub mod Lease
pub mod Index
pub mod Server
