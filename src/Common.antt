-- ===== src/Common.antt =====
-- lib/common: the helpers that the components share.
pub mod Addr
pub mod Arrays
pub mod BlackList
pub mod Bytes
pub mod Ports
pub mod Udp
