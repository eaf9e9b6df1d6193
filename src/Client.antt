-- ===== src/Client.antt =====
-- internal/client: the persistent clients of the configuration, and the clients that are seen.
mod Examples
mod Orders
pub mod Runtime
pub mod Persistent
pub mod Index
pub mod Storage
