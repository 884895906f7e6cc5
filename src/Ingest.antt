-- ===== src/Ingest.antt =====
-- ingest.py: what the mirror fetches from Planning Center, and what it does with each answer.
pub mod Remote
pub mod Requests
pub mod Escalation
pub mod Walk
pub mod Refresh
pub mod Replaced
pub mod Confirmed
pub mod Fetched
pub mod Exact
pub mod Ends
pub mod Diff
pub mod Hydrate
pub mod Spares
pub mod Compared
pub mod Verdict
pub mod Drained
pub mod Queue
pub mod Mergers
pub mod Latest
pub mod Replayed
pub mod Buried
pub mod Authority
pub mod Backfill
pub mod Resumed
pub mod Descend
pub mod Sweep
pub mod Descended
pub mod Samples
mod Resumption
mod Examples
