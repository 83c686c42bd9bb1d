-- ===== src/Sync.antt =====
-- The sync with the server: src/matrix/sync.rs and the sync methods of src/matrix/mod.rs.
pub mod Response
pub mod Loop
