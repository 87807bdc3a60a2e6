-- ===== src/Rooms.antt =====
-- The rules of the arcade rooms that the client and the services share.
pub mod Availability
pub mod Lifecycle
pub mod Lobby
pub mod RoundStatus
pub mod Clock
pub mod TickPilot
pub mod Members
