-- ===== src/Scheduler.antt =====
-- scheduler.py: the two lanes of the sync. A tick calls the ingestor and the receiver through the
-- record of `Lane`; what a lane keeps itself is the ring's place, the back-off and two timers.
pub mod Lane
pub mod Cold
pub mod Due
pub mod Hot
pub mod Ring
pub mod Backoff
pub mod Fair
mod Examples
