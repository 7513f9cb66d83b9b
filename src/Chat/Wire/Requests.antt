-- ===== src/Chat/Wire/Requests.antt =====
-- What the client sends (desktop/core/src/chat_wire/protocol.rs).
use fermix_linux.Base.{ℕ, Bool, List, [], Option, none, String}
use fermix_linux.Chat.Wire.Lists.{ListOp}
use fermix_linux.Chat.Wire.Cards.{Decision}

pub data Cursor : Type 0 where
  after_seq before_seq : ℕ → Cursor

pub record TaskRef : Type 0 where
  pub call_uuid : String
  pub task_id : String
  pub revision : ℕ

-- The fields of each event in the source's order.
pub data ClientEvent : Type 0 where
  client_hello : ℕ → Option ℕ → ClientEvent
  -- `client_msg_id`, `profile_id`, `text`, `attach_ids`
  msg : String → String → String → List String → ClientEvent
  -- `client_msg_id`, `profile_id`, `name`, `args`
  command : String → String → String → Option String → ClientEvent
  -- `profile_id`, `client_msg_id`, `task_ref`
  cancel : String → String → Option TaskRef → ClientEvent
  history_pull : String → Cursor → ℕ → ClientEvent
  history_search : String → String → ℕ → Option ℕ → ClientEvent
  read_state : String → ℕ → ClientEvent
  media_fetch media_release : String → String → ClientEvent
  -- `client_msg_id`, `profile_id`, `proposal_id`, `decision`
  proposal_answer : String → String → String → Decision → ClientEvent
  checklists_pull : String → ClientEvent
  checklist_pull : String → String → Option Bool → ClientEvent
  checklist_edit : String → String → Option String → ListOp → ClientEvent
  attach_file : String → String → String → ℕ → String → Option String → ClientEvent

abbrev pub profile : String
profile = "main"

abbrev pub msg_event : String → String → ClientEvent
msg_event client_msg_id text = ClientEvent.msg client_msg_id profile text []

abbrev pub command_event : String → String → Option String → ClientEvent
command_event client_msg_id name args = ClientEvent.command client_msg_id profile name args

abbrev pub cancel_event : String → ClientEvent
cancel_event client_msg_id = ClientEvent.cancel profile client_msg_id none

abbrev pub pull_event : Cursor → ℕ → ClientEvent
pull_event cursor limit = ClientEvent.history_pull profile cursor limit

abbrev pub read_state_event : ℕ → ClientEvent
read_state_event seq = ClientEvent.read_state profile seq

abbrev pub media_fetch_event : String → ClientEvent
media_fetch_event ref = ClientEvent.media_fetch profile ref

abbrev pub media_release_event : String → ClientEvent
media_release_event ref = ClientEvent.media_release profile ref

abbrev pub proposal_answer_event : String → String → Decision → ClientEvent
proposal_answer_event client_msg_id proposal_id decision =
    ClientEvent.proposal_answer client_msg_id profile proposal_id decision

abbrev pub max_line_bytes : ℕ
max_line_bytes = 65536
