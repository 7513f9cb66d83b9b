-- ===== src/Realtime.antt =====
-- The voice call: its wire, its session, its playback and its speech gate
-- (desktop/core/src/realtime).
pub mod Protocol
pub mod LineBuffer
pub mod Level
pub mod Client
pub mod Speech
pub mod Words
pub mod PlaybackIds
pub mod Playback
pub mod Session
