-- ===== src/Webhooks.antt =====
-- webhooks.py: the receiver, the inbox and its processing, and the list of subscriptions.
pub mod State
pub mod Token
pub mod Subscriptions
pub mod Sender
pub mod Capture
pub mod Receive
pub mod Inbox
pub mod Hydration
pub mod Merger
pub mod Process
pub mod Drain
mod Authentic
pub mod Untouched
pub mod Verdict
mod Readable
mod Captures
mod Captured
pub mod Attempts
mod Revivals
mod Tokens
mod Replays
pub mod Samples
mod Examples
