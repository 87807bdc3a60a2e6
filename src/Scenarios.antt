-- ===== src/Scenarios.antt =====
-- Runs of the modelled code at concrete inputs.
mod Physics
mod Rallies
mod Authority
mod Chaos
mod Members
mod Relayer
mod Rooms
mod Lifecycle
mod Lobby
