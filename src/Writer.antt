-- ===== src/Writer.antt =====
-- writer.py: the canonical writer. Each operation is a function of the tables; `Env` holds what it
-- takes from outside: the clock, the pinned API version, and Python's `float` on texts.
-- The definitions stand in the first five modules, and what is proved of them in the others.
pub mod Ops
pub mod Project
pub mod Upsert
pub mod Tombstone
pub mod Route
pub mod Cascade
pub mod Owned
pub mod Look
pub mod Convergence
pub mod Poorer
pub mod Burials
pub mod Merged
pub mod Merges
pub mod Overwrites
pub mod Ownership
pub mod Routing
pub mod Steps
mod Examples
