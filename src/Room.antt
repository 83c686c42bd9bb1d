-- ===== src/Room.antt =====
-- The rooms: src/matrix/room.
pub mod Common
pub mod Joined
pub mod States
pub mod Invited
pub mod Entry
