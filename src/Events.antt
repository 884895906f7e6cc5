-- ===== src/Events.antt =====
-- pcoevents.py: what the console says that the mirror does with an event.
pub mod Handling
mod Promise
mod Examples
