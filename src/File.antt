-- ===== src/File.antt =====
-- lib/file: the objects and the database of the server.
pub mod Clients
pub mod Conns
pub mod Hosts
pub mod JsonDb
pub mod Listing
pub mod Obj
pub mod Paging
pub mod Targets
pub mod Tasks
