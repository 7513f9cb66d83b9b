-- ===== src/Chat/Handshake.antt =====
-- What an event read during the handshake means (desktop/core/src/chat_wire/session.rs), and how
-- the log names it (protocol.rs beside it).
use fermix_linux.Base.{
  ℕ, Bool, ◌&&◌, ◌||◌, List, [], ◌∷◌, Option, none, some, String, ltb, leb, ◌==◌, length, all,
  if◌then◌else◌, str_mem, str_eq, codes, decimal, ◌+++◌,
}
use fermix_linux.Realtime.Protocol.{Direction}
use fermix_linux.Chat.Wire.Events.{ServerEvent}

abbrev pub protocol_version : ℕ
protocol_version = 7

abbrev pub max_logged_bytes : ℕ
max_logged_bytes = 64

abbrev pub not_logged : String
not_logged = "(not logged)"

abbrev pub known_types : List String
known_types =
    "server_hello" ∷ "accepted" ∷ "turn_started" ∷ "text_delta" ∷ "tool_event" ∷ "text_done"
    ∷ "turn_error" ∷ "turn_done" ∷ "row" ∷ "row_updated" ∷ "approval" ∷ "approval_resolved"
    ∷ "read_state" ∷ "history_page" ∷ "search_results" ∷ "media_path" ∷ "media_missing" ∷ "proposal"
    ∷ "proposal_resolved" ∷ "error" ∷ "reasoning" ∷ "home_status_changed" ∷ "checklists"
    ∷ "checklist" ∷ "attach_status" ∷ []

pub known : String → String
known kind = if str_mem kind known_types then kind else "unknown"

pub kind : ServerEvent → String
kind (ServerEvent.server_hello h) = "server_hello"
kind (ServerEvent.accepted _ _ _) = "accepted"
kind (ServerEvent.turn_started _ _) = "turn_started"
kind (ServerEvent.text_delta _ _) = "text_delta"
kind (ServerEvent.tool_event _ _ _ _ _) = "tool_event"
kind (ServerEvent.reasoning _ _) = "reasoning"
kind (ServerEvent.text_done _) = "text_done"
kind (ServerEvent.turn_error _ _ _) = "turn_error"
kind (ServerEvent.turn_done _) = "turn_done"
kind (ServerEvent.row _) = "row"
kind (ServerEvent.row_updated _) = "row_updated"
kind (ServerEvent.approval _) = "approval"
kind (ServerEvent.approval_resolved _ _) = "approval_resolved"
kind (ServerEvent.read_state _) = "read_state"
kind (ServerEvent.history_page _) = "history_page"
kind (ServerEvent.search_results _) = "search_results"
kind (ServerEvent.media_path _) = "media_path"
kind (ServerEvent.media_missing _) = "media_missing"
kind (ServerEvent.proposal _) = "proposal"
kind (ServerEvent.proposal_resolved _) = "proposal_resolved"
kind (ServerEvent.error _) = "error"
kind ServerEvent.home_status_changed = "home_status_changed"
kind (ServerEvent.checklists _) = "checklists"
kind (ServerEvent.checklist _ _) = "checklist"
kind (ServerEvent.attach_status _ _) = "attach_status"
kind (ServerEvent.unreadable u) = known u.kind
kind (ServerEvent.unknown _) = "unknown"

-- `u8::is_ascii_alphanumeric`, `_` or `-`
is_id_byte : ℕ → Bool
is_id_byte b =
    (leb 48 b && leb b 57)
    || (leb 65 b && leb b 90)
    || (leb 97 b && leb b 122)
    || (b == 95)
    || (b == 45)

-- A text past ASCII has a code point that is no byte of an id, whatever its bytes are.
unfoldable pub loggable_id : String → String
unfolding is_id_byte
loggable_id id =
    if ltb 0 (length (codes id))
      && leb (length (codes id)) max_logged_bytes
      && all is_id_byte (codes id)
    then id
    else not_logged

direction_word : Option Direction → String
direction_word none = "none"
direction_word (some Direction.client_too_old) = "client_too_old"
direction_word (some Direction.client_too_new) = "client_too_new"
direction_word (some (Direction.other word)) = loggable_id word

pub logged : ServerEvent → String
logged (ServerEvent.server_hello h) =
    "server_hello, versions " +++ decimal h.min_version +++ " to " +++ decimal h.max_version
logged (ServerEvent.error e) =
    "error " +++ loggable_id e.reason +++ ", direction " +++ direction_word e.direction
logged event = kind event

abbrev pub update_app : String
update_app = "This app is older than the Fermix engine it talks to. Update the app to chat."

abbrev pub update_fermix : String
update_fermix = "The Fermix engine is older than this app. Update the engine to chat."

abbrev pub update_both : String
update_both =
    "Fermix refused this app's version in a way this app cannot read. Update the app and the engine to chat."

unfoldable pub refusal : Direction → String
refusal Direction.client_too_old = update_app
refusal Direction.client_too_new = update_fermix
refusal (Direction.other _) = update_both

pub data Handshake : Type 0 where
  ok : Handshake
  refused lost : String → Handshake
  ignore : Handshake

unfoldable pub window : ℕ → ℕ → Handshake
window low high =
    if ltb protocol_version low
    then Handshake.refused (refusal Direction.client_too_old)
    else if ltb high protocol_version
    then Handshake.refused (refusal Direction.client_too_new)
    else Handshake.ok

unfoldable pub handshake : ServerEvent → Handshake
handshake (ServerEvent.server_hello h) = window h.min_version h.max_version
handshake (ServerEvent.error e) = elim e.direction [
  | some direction ↦ Handshake.refused (refusal direction)
  | none ↦ Handshake.lost (logged (ServerEvent.error e))
]
handshake (ServerEvent.unreadable u) =
    if str_eq u.kind "server_hello" || str_eq u.kind "error"
    then Handshake.lost ("the daemon's " +++ u.kind +++ " could not be read")
    else Handshake.ignore
handshake _ = Handshake.ignore
