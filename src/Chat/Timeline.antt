-- ===== src/Chat/Timeline.antt =====
-- What the chat holds and does with each event (desktop/core/src/chat_wire/timeline.rs).
pub mod State
pub mod Reads
pub mod Rows
pub mod Turns
pub mod Outbox
pub mod Cards
pub mod Receive
pub mod Inputs
pub mod Invariant
pub mod Pages
pub mod Merging
pub mod Steps
pub mod Unread
pub mod Sending
pub mod Runs
pub mod Waiting
pub mod Sent
pub mod Decided
pub mod Progress
pub mod Lookup
mod Tests
