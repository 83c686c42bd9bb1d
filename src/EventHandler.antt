-- ===== src/EventHandler.antt =====
-- src/matrix/event_handler: the kinds of handlers and the handles of registrations (mod.rs).
pub mod Defs
pub mod Maps
pub mod Store
pub mod Dispatch
pub mod Events
pub mod Closure
