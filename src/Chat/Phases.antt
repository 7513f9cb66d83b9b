-- ===== src/Chat/Phases.antt =====
-- The state of the chat connection (desktop/core/src/chat_wire/session.rs).
use fermix_linux.Base.{ℕ, Bool, Option, String}

pub data Lost : Type 0 where
  no_socket history : Lost
  broken : String → Lost

pub data Phase : Type 0 where
  idle connecting handshaking connected waiting : Phase
  refused : String → Phase

pub record Session : Type 0 where
  pub phase : Phase
  pub failures : ℕ
  pub last_lost : Option Lost
  pub history_owed : Bool

pub data Shown : Type 0 where
  idle connecting connected no_chat : Shown
  disconnected refused : String → Shown
