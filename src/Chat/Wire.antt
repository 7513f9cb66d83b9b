-- ===== src/Chat/Wire.antt =====
-- The chat wire's types (desktop/core/src/chat_wire/protocol.rs), decoded: how a line becomes one
-- is the JSON library's.
pub mod Lists
pub mod Rows
pub mod Cards
pub mod Requests
pub mod Events
pub mod Allowed
mod Tests
