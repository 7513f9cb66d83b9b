-- ===== src/Chat.antt =====
-- The chat wire's connection and its cards (desktop/core/src/chat_wire).
pub mod Wire
pub mod Handshake
pub mod Phases
pub mod Connection
mod Unshown
pub mod Clock
pub mod Timeline
pub mod Grants
pub mod Proposals
mod Tests
