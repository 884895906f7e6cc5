-- ===== src/Limiter.antt =====
-- ratelimit.py: the token bucket that every caller of Planning Center shares.
pub mod Bucket
pub mod Grants
mod Examples
