-- ===== src/LoadTest.antt =====
-- The load tests: src/bin and src/lib.rs.
pub mod Attempts
pub mod Chat
pub mod Sleep
