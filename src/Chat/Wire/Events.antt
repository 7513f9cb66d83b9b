-- ===== src/Chat/Wire/Events.antt =====
-- What the daemon sends (desktop/core/src/chat_wire/protocol.rs).
use fermix_linux.Base.{ℕ, Bool, List, Option, String, str_eq, if◌then◌else◌}
use fermix_linux.Realtime.Protocol.{Direction}
use fermix_linux.Chat.Wire.Lists.{ListEntry, OwnerList}
use fermix_linux.Chat.Wire.Rows.{Row, Reply, Page, Grant}
use fermix_linux.Chat.Wire.Cards.{Approval, Proposal, Resolution}

pub record CommandDescriptor : Type 0 where
  pub name : String
  pub aliases : List String
  pub description : String

pub record Commands : Type 0 where
  pub offered : List CommandDescriptor
  pub skipped : ℕ

pub record Inbox : Type 0 where
  pub dir : String
  pub max_bytes : ℕ

pub data Attachments : Type 0 where
  absent : Attachments
  offered : Inbox → Attachments
  unread : Attachments

-- The fields of `server_hello`.
pub record Hello : Type 0 where
  pub min_version : ℕ
  pub max_version : ℕ
  pub primary_epoch : Option ℕ
  pub role : Option String
  pub commands : Commands
  pub attachments : Attachments

pub data ToolPhase : Type 0 where
  started stopped : ToolPhase
  other : String → ToolPhase

-- `impl From<String> for ToolPhase`
pub tool_phase : String → ToolPhase
tool_phase word =
    if str_eq word "start"
    then ToolPhase.started
    else if str_eq word "stop"
    then ToolPhase.stopped
    else ToolPhase.other word

pub record ServerError : Type 0 where
  pub reason : String
  pub message : Option String
  pub field : Option String
  pub event : Option String
  pub client_msg_id : Option String
  pub ref : Option String
  pub attach_id : Option String
  pub direction : Option Direction
  pub client_version : Option ℕ
  pub min_version : Option ℕ
  pub max_version : Option ℕ

pub record Unreadable : Type 0 where
  pub kind : String
  pub card_id : Option String
  pub turn_id : Option String
  pub client_msg_id : Option String
  pub ref : Option String

-- The fields of each event in the source's order.
pub data ServerEvent : Type 0 where
  server_hello : Hello → ServerEvent
  -- `client_msg_id`, `duplicate`, `server_seq`
  accepted : String → Bool → Option ℕ → ServerEvent
  -- `turn_id`, `in_reply_to`
  turn_started : String → String → ServerEvent
  -- `turn_id`, `text`
  text_delta : String → String → ServerEvent
  -- `turn_id`, `tool`, `phase`, `detail`, `activity`
  tool_event : String → String → ToolPhase → Option String → Option String → ServerEvent
  reasoning : String → String → ServerEvent
  text_done : Reply → ServerEvent
  -- `turn_id`, `code`, `message`
  turn_error : String → String → String → ServerEvent
  turn_done : String → ServerEvent
  row : Row → ServerEvent
  row_updated : ℕ → ServerEvent
  approval : Approval → ServerEvent
  -- `approval_id`, `outcome`
  approval_resolved : String → String → ServerEvent
  read_state : ℕ → ServerEvent
  history_page : Page → ServerEvent
  search_results : String → ServerEvent
  media_path : Grant → ServerEvent
  media_missing : String → ServerEvent
  proposal : Proposal → ServerEvent
  proposal_resolved : Resolution → ServerEvent
  error : ServerError → ServerEvent
  home_status_changed : ServerEvent
  checklists : List ListEntry → ServerEvent
  checklist : OwnerList → List (String × String) → ServerEvent
  attach_status : String → String → ServerEvent
  unknown : String → ServerEvent
  unreadable : Unreadable → ServerEvent
