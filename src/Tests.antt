-- ===== src/Tests.antt =====
-- The theorems at concrete inputs, and runs of the definitions.
mod Handlers
mod Callings
mod Rounds
mod Requests
mod Rooms
mod Syncs
mod Caches
mod Clients
mod Entering
mod Sending
mod Chats
mod Timeline
mod Accounts
mod Users
mod Moves
