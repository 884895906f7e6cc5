-- ===== src/Cors.antt =====
-- cors.py: which pages may read the API from a browser.
pub mod Origin
pub mod Policy
pub mod Build
pub mod Attach
mod Credentials
mod Diagnostic
mod Examples
