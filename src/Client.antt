-- ===== src/Client.antt =====
-- pcoclient.py: the client of Planning Center, with its retries.
pub mod Request
mod Sends
mod Answers
mod Examples
