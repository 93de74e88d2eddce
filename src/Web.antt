-- ===== src/Web.antt =====
-- web/controllers: the web interface, from the request to the change of the tables.
pub mod Access
pub mod Changes
pub mod Clients
pub mod Hosts
pub mod Keys
pub mod Lockout
pub mod Login
pub mod Guarded
pub mod Ownership
pub mod Request
pub mod Tunnels
pub mod Unguarded
