-- ===== src/Client.antt =====
-- src/matrix/mod.rs: the client.
pub mod Session
pub mod Login
pub mod Filter
pub mod SingleSignOn
pub mod Requests
