-- ===== src/Chat/Wire/Cards.antt =====
-- Approvals and proposals on the wire (desktop/core/src/chat_wire/protocol.rs).
use fermix_linux.Base.{
  ℕ, Bool, true, false, List, Option, none, some, inl, inr, ◌⊎◌, String, is_blank, str_eq,
  if◌then◌else◌,
}

pub record Approval : Type 0 where
  pub approval_id : String
  pub kind : String
  pub text : String
  pub detail : Option String
  pub token : String
  pub ttl_s : ℕ
  pub approve_command : String
  pub deny_command : String

pub data ProposalState : Type 0 where
  waiting confirmed denied expired refused : ProposalState
  unknown : String → ProposalState

-- `impl From<String> for ProposalState`
pub proposal_state : String → ProposalState
proposal_state word =
    if str_eq word "waiting"
    then ProposalState.waiting
    else if str_eq word "confirmed"
    then ProposalState.confirmed
    else if str_eq word "denied"
    then ProposalState.denied
    else if str_eq word "expired"
    then ProposalState.expired
    else if str_eq word "refused"
    then ProposalState.refused
    else ProposalState.unknown word

unfoldable pub is_waiting : ProposalState → Bool
is_waiting ProposalState.waiting = true
is_waiting _ = false

pub data Decision : Type 0 where
  confirm deny always_allow : Decision

pub record FollowUp : Type 0 where
  pub asks : String
  pub offers_always_allow : Bool
  pub name : String
  pub instructions : String
  pub tools : List String
  pub reports_to : String

pub data Ask : Type 0 where
  -- `mandate`, `tool`, `args_text`
  call : String → String → String → Ask
  follow_up : FollowUp → Ask

unfoldable pub takes : Ask → Decision → Bool
takes _ Decision.confirm = true
takes _ Decision.deny = true
takes (Ask.follow_up f) Decision.always_allow = f.offers_always_allow
takes (Ask.call _ _ _) Decision.always_allow = false

abbrev pub follow_up_runs : String
follow_up_runs = "run"

pub record ProposalTask : Type 0 where
  pub job_id : String
  pub name : Option String

pub record Arg : Type 0 where
  pub name : String
  pub value : String

pub record Cue : Type 0 where
  pub kind : Option String
  pub subject : Option String
  pub text : Option String
  pub occurred_at : Option String

pub record Outside : Type 0 where
  pub args : List Arg
  pub reason : Option String
  pub cue : Option Cue

pub record Proposal : Type 0 where
  pub proposal_id : String
  pub state : ProposalState
  pub ask : Ask
  pub task : ProposalTask
  pub watcher : Option String
  pub source_ref : Option String
  pub created_at : String
  pub expires_at : String
  pub received_at : Option String
  pub decided_at : Option String
  pub decided_from : Option String
  pub result_status : Option String
  pub status_sentence : String
  pub summary : String
  pub outside : Outside

pub record RawOutside : Type 0 where
  pub args_text : Option String
  pub args : List Arg
  pub reason : Option String
  pub cue : Option Cue

pub record RawProposal : Type 0 where
  pub proposal_id : String
  pub state : ProposalState
  pub mandate : Option String
  pub tool : Option String
  pub follow_up : Option FollowUp
  pub task : ProposalTask
  pub watcher : Option String
  pub source_ref : Option String
  pub created_at : String
  pub expires_at : String
  pub received_at : Option String
  pub decided_at : Option String
  pub decided_from : Option String
  pub result_status : Option String
  pub status_sentence : String
  pub summary : String
  pub outside : RawOutside

-- A call's arguments that are blank are none.
abbrev pub shown_args : Option String → Option String
shown_args none = none
shown_args (some text) = if is_blank text then none else some text

-- The match of `try_from`: what is asked, or why nothing is.
unfoldable pub ask_of :
    Option String → Option String → Option String → Option FollowUp → String ⊎ Ask
ask_of (some mandate) (some tool) (some args) none = inr (Ask.call mandate tool args)
ask_of none none _ (some f) =
    if str_eq f.asks follow_up_runs
    then inr (Ask.follow_up f)
    else inl "a follow-up that asks no run"
ask_of _ _ _ _ = inl "neither a mandate's call nor a follow-up"

-- A proposal of what is asked.
abbrev pub proposal_of : RawProposal → String ⊎ Ask → String ⊎ Proposal
proposal_of raw (inl error) = inl error
proposal_of raw (inr ask) = inr (record {
  proposal_id = raw.proposal_id;
  state = raw.state;
  ask = ask;
  task = raw.task;
  watcher = raw.watcher;
  source_ref = raw.source_ref;
  created_at = raw.created_at;
  expires_at = raw.expires_at;
  received_at = raw.received_at;
  decided_at = raw.decided_at;
  decided_from = raw.decided_from;
  result_status = raw.result_status;
  status_sentence = raw.status_sentence;
  summary = raw.summary;
  outside = record { args = raw.outside.args; reason = raw.outside.reason; cue = raw.outside.cue };
})

-- `Proposal::try_from`
unfoldable pub try_from : RawProposal → String ⊎ Proposal
unfolding ask_of
try_from raw =
    proposal_of raw (ask_of raw.mandate raw.tool (shown_args raw.outside.args_text) raw.follow_up)

pub record Resolution : Type 0 where
  pub proposal_id : String
  pub state : ProposalState
  pub result_status : Option String
  pub sentence : String
  pub result_text : Option String
