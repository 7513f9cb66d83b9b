-- ===== src/Chat/Timeline/State.antt =====
-- The chat's state (desktop/core/src/chat_wire/timeline.rs).
use fermix_linux.Base.{ℕ, Bool, true, false, ◌&&◌, List, [], Option, none, some, String, max_u64}
use fermix_linux.Base.Int.{ℤ}
use fermix_linux.Chat.Wire.Rows.{Row}
use fermix_linux.Chat.Wire.Cards.{Approval, Proposal, is_waiting, Decision}
use fermix_linux.Chat.Wire.Requests.{ClientEvent, Cursor}
use fermix_linux.Chat.Unshown.{Unshown}

abbrev pub page_limit : ℕ
page_limit = 50

abbrev pub max_read : ℕ
max_read = 200

abbrev pub max_pending : ℕ
max_pending = 64

abbrev pub max_held : ℕ
max_held = 1000

abbrev pub newest_page : ℕ
newest_page = max_u64

abbrev pub max_unread_pages : ℕ
max_unread_pages = 3

pub record HeldRow : Type 0 where
  pub row : Row
  pub turn_id : Option String
  pub arrived : Option ℤ

pub data ToolState : Type 0 where
  running done : ToolState

pub record ToolRun : Type 0 where
  pub name : String
  pub state : ToolState
  pub started : ℤ
  pub ended : Option ℤ

pub record Turn : Type 0 where
  pub turn_id : String
  pub in_reply_to : Option String
  pub draft : String
  pub tools : List ToolRun
  pub started : ℤ
  pub stopping : Bool

pub record Outgoing : Type 0 where
  pub client_msg_id : String
  pub event : ClientEvent
  pub text : String
  pub approval_id : Option String
  pub proposal_id : Option String

abbrev is_none : Option String → Bool
is_none none = true
is_none (some _) = false

unfoldable pub is_question : Outgoing → Bool
is_question out = is_none out.approval_id && is_none out.proposal_id

pub record HeldApproval : Type 0 where
  pub approval : Approval
  pub expires_at : ℤ

pub data Standing : Type 0 where
  opened : Standing
  answered : Decision → Standing
  expired : Standing
  -- `sentence`, `result_text`
  resolved : String → Option String → Standing
  refused : String → Standing

abbrev pub is_open : Standing → Bool
is_open Standing.opened = true
is_open _ = false

abbrev pub is_resolved : Standing → Bool
is_resolved (Standing.resolved _ _) = true
is_resolved _ = false

abbrev pub is_refused : Standing → Bool
is_refused (Standing.refused _) = true
is_refused _ = false

pub record HeldProposal : Type 0 where
  pub proposal : Proposal
  pub standing : Standing
  pub created : Option ℤ
  pub expires : Option ℤ

-- `HeldProposal::asks`
unfoldable pub asks_now : HeldProposal → Bool
asks_now held = is_waiting held.proposal.state && is_open held.standing

pub data Pull : Type 0 where
  page : Cursor → Pull
  seqs : List ℕ → Pull

pub record Chat : Type 0 where
  pub rows : List HeldRow
  pub cursor : ℕ
  pub head : ℕ
  pub has_older : Bool
  pub read_up_to : ℕ
  pub turn : Option Turn
  pub pending : List Outgoing
  pub approvals : List HeldApproval
  pub proposals : List HeldProposal
  pub reveal : Option String
  pub unshown : List Unshown
  pub last_error : Option String
  pub connected : Bool
  pub unread_pages : ℕ
  pub warned : List String
  pub pull : Option Pull
  pub older_waiting : Option ℕ
  pub rows_to_read : List ℕ
  pub read_before_disconnect : List ℕ
  pub read_sent : ℕ

-- `Chat::default()`
abbrev pub default : Chat
default = record {
  rows = [];
  cursor = 0;
  head = 0;
  has_older = false;
  read_up_to = 0;
  turn = none;
  pending = [];
  approvals = [];
  proposals = [];
  reveal = none;
  unshown = [];
  last_error = none;
  connected = false;
  unread_pages = 0;
  warned = [];
  pull = none;
  older_waiting = none;
  rows_to_read = [];
  read_before_disconnect = [];
  read_sent = 0;
}

-- What a step returns: the chat and what it sends.
abbrev pub Step : Type 0
Step = Chat × List ClientEvent
