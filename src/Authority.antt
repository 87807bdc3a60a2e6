-- ===== src/Authority.antt =====
-- Which engine may run a room, and what the operators' worker does about it.
pub mod Observation
pub mod Recovery
