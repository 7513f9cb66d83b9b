-- ===== src/Chat/Timeline/Outbox.antt =====
-- The requests that wait for the daemon (desktop/core/src/chat_wire/timeline.rs). `encoded` is the
-- length of an event as the JSON library writes it.
use fermix_linux.Base.{
  ℕ, ◌+◌, Bool, false, not, ◌&&◌, List, [], ◌∷◌, ◌++◌, Option, none, some, String, str_eq,
  strip_prefix, str_is_empty, leb, if◌then◌else◌, length, any, filter, find, trim, split_space,
  ◌>>=◌,
}
use fermix_linux.Chat.Wire.Cards.{Decision, takes}
use fermix_linux.Chat.Wire.Requests.{
  ClientEvent, msg_event, command_event, proposal_answer_event, max_line_bytes,
}
use fermix_linux.Chat.Timeline.State.{
  Chat, Step, Outgoing, HeldProposal, Standing, asks_now, max_pending,
}

abbrev pub too_long : String
too_long = "The message is too long to send"

abbrev pub outbox_full : String
outbox_full = "Too many messages are waiting to send"

-- `ClientEvent::line().is_err()`: the line and its newline reach the cap.
abbrev pub is_too_long : (ClientEvent → ℕ) → ClientEvent → Bool
is_too_long encoded event = leb max_line_bytes (encoded event + 1)

-- What is sent now is `none` where the line is too long.
unfoldable pub enqueue : (ClientEvent → ℕ) → Chat → Outgoing → Chat × Option (List ClientEvent)
enqueue encoded chat out =
    if is_too_long encoded out.event then (record chat { last_error = some too_long }, none) else (
      record chat { pending = chat.pending ++ out ∷ [] },
      some (if chat.connected then out.event ∷ [] else []),
    )

abbrev pub or_nothing : Chat × Option (List ClientEvent) → Step
or_nothing (chat, some sent) = (chat, sent)
or_nothing (chat, none) = (chat, [])

-- `send` of what is left of the text.
unfoldable pub send_trimmed : (ClientEvent → ℕ) → Chat → String → String → Step
unfolding enqueue
send_trimmed encoded chat text client_msg_id =
    if str_is_empty text
    then (chat, [])
    else if leb max_pending (length chat.pending)
    then (record chat { last_error = some outbox_full }, [])
    else or_nothing (
        enqueue encoded (record chat { last_error = none })
          (record {
            client_msg_id = client_msg_id;
            event = msg_event client_msg_id text;
            text = text;
            approval_id = none;
            proposal_id = none;
          }))

unfoldable pub send : (ClientEvent → ℕ) → Chat → String → String → Step
unfolding send_trimmed
send encoded chat text client_msg_id = send_trimmed encoded chat (trim text) client_msg_id

-- The arguments of a route, where there are any.
abbrev pub some_args : String → Option String
some_args args = if str_is_empty args then none else some args

unfoldable pub route : String → Option (String × Option String)
route command = strip_prefix command "/" >>= λ line. elim (split_space line) [
  | some (name, args) ↦ if str_is_empty name then none else some (name, some_args (trim args))
  | none ↦ if str_is_empty line then none else some (line, none)
]

-- `out.approval_id.as_deref() == Some(id)`
abbrev pub is_id : Option String → String → Bool
is_id none id = false
is_id (some own) id = str_eq own id

unfoldable pub answering : Chat → String → Bool
answering chat approval_id = any (λ out. is_id out.approval_id approval_id) chat.pending

-- What a card's answer by a route puts in the outbox.
unfoldable pub answer_with :
    (ClientEvent → ℕ) → Chat → String → Option (String × Option String) → String → Step
unfolding enqueue
answer_with encoded chat approval_id none client_msg_id = (chat, [])
answer_with encoded chat approval_id (some (name, args)) client_msg_id = or_nothing (
    enqueue encoded chat (record {
      client_msg_id = client_msg_id;
      event = command_event client_msg_id name args;
      text = "";
      approval_id = some approval_id;
      proposal_id = none;
    }))

unfoldable pub answer : (ClientEvent → ℕ) → Chat → String → Bool → String → Step
unfolding answer_with answering route
answer encoded chat approval_id approve client_msg_id =
    if answering chat approval_id
    then (chat, [])
    else elim (find (λ held. str_eq held.approval.approval_id approval_id) chat.approvals) [
      | none ↦ (chat, [])
      | some held ↦
          answer_with encoded chat approval_id
            (route (if approve then held.approval.approve_command else held.approval.deny_command))
            client_msg_id
    ]

-- Whether the card takes this answer now.
abbrev pub is_asked : String → Decision → HeldProposal → Bool
is_asked proposal_id decision held =
    str_eq held.proposal.proposal_id proposal_id
    && asks_now held
    && takes held.proposal.ask decision

-- The first card that the test finds stands answered.
unfoldable pub stand : (HeldProposal → Bool) → Standing → List HeldProposal → List HeldProposal
stand test standing [] = []
stand test standing (held ∷ cards) =
    let rest = stand test standing cards in
    if test held then record held { standing = standing } ∷ cards else held ∷ rest

-- The card that was answered waits, where its answer is in the outbox.
unfoldable pub answered_card : String → Decision → Chat × Option (List ClientEvent) → Step
unfolding stand
answered_card proposal_id decision (chat, none) = (chat, [])
answered_card proposal_id decision (chat, some sent) = (
  record chat {
    proposals = stand (is_asked proposal_id decision) (Standing.answered decision) chat.proposals;
  },
  sent,
)

-- What an answer puts in the outbox.
abbrev pub proposal_out : String → String → Decision → Outgoing
proposal_out client_msg_id proposal_id decision = record {
  client_msg_id = client_msg_id;
  event = proposal_answer_event client_msg_id proposal_id decision;
  text = "";
  approval_id = none;
  proposal_id = some proposal_id;
}

unfoldable pub answer_proposal : (ClientEvent → ℕ) → Chat → String → Decision → String → Step
unfolding enqueue answered_card
answer_proposal encoded chat proposal_id decision client_msg_id =
    if any (is_asked proposal_id decision) chat.proposals
    then answered_card proposal_id decision
        (enqueue encoded chat (proposal_out client_msg_id proposal_id decision))
    else (chat, [])

unfoldable pub settle : Chat → String → Chat
settle chat client_msg_id = record chat {
  pending = filter (λ out. not (str_eq out.client_msg_id client_msg_id)) chat.pending;
}
