-- ===== src/Tests.antt =====
-- The theorems at concrete inputs.
mod Wire
mod Commands
mod Encoding
mod Sync
mod Routes
mod Loading
mod Site
mod Credential
mod Ending
mod Actuation
