-- ===== src/Chat/Timeline/Inputs.antt =====
-- The calls that the app makes on the chat (desktop/core/src/chat_wire/timeline.rs), as values, and
-- runs of them.
use fermix_linux.Base.{ℕ, Bool, List, [], Option, some, String}
use fermix_linux.Base.Int.{ℤ}
use fermix_linux.Chat.Wire.Cards.{Decision}
use fermix_linux.Chat.Wire.Requests.{ClientEvent}
use fermix_linux.Chat.Wire.Events.{ServerEvent}
use fermix_linux.Chat.Timeline.State.{Chat, Step}
use fermix_linux.Chat.Timeline.Reads.{rows_on_screen, pull_older, newest_seen}
use fermix_linux.Chat.Timeline.Turns.{stop}
use fermix_linux.Chat.Timeline.Outbox.{send, answer, answer_proposal}
use fermix_linux.Chat.Timeline.Cards.{expire_approvals, expire_proposals, reveal, revealed}
use fermix_linux.Chat.Timeline.Receive.{negotiated, disconnected, first_unreadable, receive}

pub data Input : Type 0 where
  negotiation : List ℕ → Input
  disconnection : Input
  -- `text`, `client_msg_id`
  message : String → String → Input
  cancellation : Input
  -- `approval_id`, `approve`, `client_msg_id`
  approval_answer : String → Bool → String → Input
  -- `proposal_id`, `decision`, `client_msg_id`
  decision : String → Decision → String → Input
  event : ServerEvent → ℤ → Input
  top_reached newest_shown : Input
  screen : List ℕ → Input
  approvals_due proposals_due : ℤ → Input
  asked_for shown_to : String → Input
  warned_of : String → Input

unfoldable pub perform : (ClientEvent → ℕ) → Chat → Input → Option Step
perform encoded chat (Input.negotiation seqs) = some (negotiated chat seqs)
perform encoded chat Input.disconnection = some (disconnected chat, [])
perform encoded chat (Input.message text id) = some (send encoded chat text id)
perform encoded chat Input.cancellation = some (stop chat)
perform encoded chat (Input.approval_answer card approve id) =
    some (answer encoded chat card approve id)
perform encoded chat (Input.decision card word id) =
    some (answer_proposal encoded chat card word id)
perform encoded chat (Input.event e now) = receive chat e now
perform encoded chat Input.top_reached = some (pull_older chat)
perform encoded chat Input.newest_shown = some (newest_seen chat)
perform encoded chat (Input.screen seqs) = rows_on_screen chat seqs
perform encoded chat (Input.approvals_due now) = some (expire_approvals chat now, [])
perform encoded chat (Input.proposals_due now) = some (expire_proposals chat now, [])
perform encoded chat (Input.asked_for id) = some (reveal chat id, [])
perform encoded chat (Input.shown_to id) = some (revealed chat id, [])
perform encoded chat (Input.warned_of kind) = some ((first_unreadable chat kind).0, [])
