-- ===== src/Chat/Connection.antt =====
-- The chat connection's life and its backoff (desktop/core/src/chat_wire/session.rs). A method
-- returns the new session, beside its result where it has one; delays are in seconds.
pub mod Backoff
use fermix_linux.Base.{
  ℕ, zero, suc, ◌+◌, ◌^◌, min, Bool, true, false, not, ◌&&◌, ◌||◌, List, [], ◌∷◌, Option, none,
  some, String, if◌then◌else◌,
}
use fermix_linux.Chat.Phases.{Lost, Phase, Session, Shown}
use fermix_linux.Chat.Wire.Events.{ServerEvent}
use fermix_linux.Chat.Handshake.{Handshake, handshake}

abbrev pub reconnect_delays_s : List ℕ
reconnect_delays_s = 1 ∷ 2 ∷ 4 ∷ 8 ∷ 16 ∷ 30 ∷ []

-- The entry at an index, the last one repeated.
abbrev pub entry_or_last : ℕ → List ℕ → ℕ
entry_or_last n [] = 0
entry_or_last n (x ∷ []) = x
entry_or_last zero (x ∷ y ∷ xs) = x
entry_or_last (suc n) (x ∷ y ∷ xs) = entry_or_last n (y ∷ xs)

unfoldable pub delay : ℕ → ℕ
delay failures = entry_or_last failures reconnect_delays_s

-- `Session::default()`
abbrev pub default : Session
default = record { phase = Phase.idle; failures = 0; last_lost = none; history_owed = false }

-- The sessions that `start` refuses to begin from go on as they are.
unfoldable pub start : Session → Session × Bool
start s = elim s.phase [
  | Phase.refused _ ↦ (record default { phase = Phase.connecting }, true)
  | Phase.idle ↦ (record s { phase = Phase.connecting }, true)
  | Phase.waiting ↦ (record s { phase = Phase.connecting }, true)
  | Phase.connecting ↦ (s, false)
  | Phase.handshaking ↦ (s, false)
  | Phase.connected ↦ (s, false)
]

unfoldable pub connected : Session → Session × Bool
connected s = elim s.phase [
  | Phase.connecting ↦ (record s { phase = Phase.handshaking }, true)
  | _ ↦ (s, false)
]

-- What `hello` makes of the session for the outcome.
unfoldable pub answered : Session → Handshake → Session
answered s Handshake.ok = record s {
  phase = Phase.connected;
  failures = if s.history_owed then s.failures else 0;
  last_lost = none;
}
answered s (Handshake.refused sentence) = record s { phase = Phase.refused sentence }
answered s _ = s

unfoldable pub hello : Session → ServerEvent → Session × Handshake
hello s event = (answered s (handshake event), handshake event)

unfoldable pub history_read : Session → Session
history_read s = elim s.phase [
  | Phase.connected ↦ record s { failures = 0; history_owed = false }
  | _ ↦ s
]

-- `u32::saturating_add`
abbrev pub saturating_add : ℕ → ℕ → ℕ
saturating_add a b = min (a + b) 4294967295

-- `matches!(self.phase, …)`: an attempt runs, or the connection is up
unfoldable pub running : Phase → Bool
running Phase.connecting = true
running Phase.handshaking = true
running Phase.connected = true
running _ = false

abbrev pub is_history : Lost → Bool
is_history Lost.history = true
is_history _ = false

unfoldable pub lost : Session → Lost → Session × Option ℕ
lost s why =
    if running s.phase
    then (
      record s {
        failures = saturating_add s.failures 1;
        history_owed = s.history_owed || is_history why;
        last_lost = some why;
        phase = Phase.waiting;
      },
      some (delay s.failures),
    )
    else (s, none)

abbrev pub no_chat : String
no_chat = "The Fermix engine on this computer has no chat yet"

abbrev pub reconnecting : String
reconnecting = "Chat cannot reach Fermix right now and is trying again"

abbrev pub history_unread : String
history_unread = "Chat cannot read Fermix's history right now and is trying again"

abbrev pub shown_lost : Option Lost → Shown
shown_lost none = Shown.connecting
shown_lost (some Lost.no_socket) = Shown.no_chat
shown_lost (some Lost.history) = Shown.disconnected history_unread
shown_lost (some (Lost.broken _)) = Shown.disconnected reconnecting

unfoldable pub shown : Session → Shown
shown s = elim s.phase [
  | Phase.idle ↦ Shown.idle
  | Phase.connected ↦ Shown.connected
  | Phase.refused sentence ↦ Shown.refused sentence
  | _ ↦ shown_lost s.last_lost
]
