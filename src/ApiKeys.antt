-- ===== src/ApiKeys.antt =====
-- apikeys.py: the keys that callers of the mirror authenticate with.
pub mod Keys
mod Access
mod Examples
