-- ===== src/Update.antt =====
-- What an update feed means for an installation (desktop/core/src/update).
pub mod Version
pub mod Policy
mod Identity
mod State
mod Restarts
mod Tests
