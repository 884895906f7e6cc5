-- ===== src/Audit.antt =====
-- ingest.py: the delete audit, one bounded step at a time.
pub mod Round
pub mod Enumerate
pub mod Settle
pub mod Step
pub mod Alive
pub mod Spares
pub mod Bury
pub mod Ended
pub mod Progress
mod Examples
