-- ===== src/Physics.antt =====
-- The court and its deterministic physics: shared/physics.ts, shared/physics-v2.ts and the three
-- variants of the rooms, which run its events and change the speeds.
pub mod Court
pub mod V2
pub mod V1
pub mod Interlude
pub mod RoomsChaos
pub mod Realtime
