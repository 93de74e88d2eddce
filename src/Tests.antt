-- ===== src/Tests.antt =====
-- The theorems at concrete inputs.
pub mod Checks
pub mod Connections
pub mod Db
pub mod Guards
pub mod Handshake
pub mod Http
pub mod Messages
pub mod P2p
pub mod Ports
pub mod Sessions
pub mod Tasks
pub mod Tunnels
pub mod Util
pub mod Web
