-- ===== src/Relayer.antt =====
-- The relayer's services: the parts of relayer/src that keep state of their own.
pub mod PublicationHealth
pub mod LogRanges
pub mod AuthorityExecutor
pub mod Scheduler
pub mod Decimal
pub mod MaintenanceCall
