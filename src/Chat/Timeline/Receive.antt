-- ===== src/Chat/Timeline/Receive.antt =====
-- The handshake, the end of a connection and each event of the daemon, as the chat takes them
-- (desktop/core/src/chat_wire/timeline.rs).
use fermix_linux.Base.{
  ℕ, ◌+◌, Bool, true, false, ◌||◌, List, [], ◌∷◌, ◌++◌, map, Option, none, some, is_some, String,
  str_eq, str_mem, ltb, min, if◌then◌else◌, filter, extend_seqs,
}
use fermix_linux.Base.Int.{ℤ}
use fermix_linux.Chat.Wire.Requests.{ClientEvent}
use fermix_linux.Chat.Wire.Events.{ServerEvent, Unreadable}
use fermix_linux.Chat.Unshown.{Asks, keep}
use fermix_linux.Chat.Timeline.State.{
  Chat, Step, HeldProposal, Outgoing, Pull, is_resolved, is_refused, max_unread_pages,
}
use fermix_linux.Chat.Timeline.Reads.{seq_of, catch_up, send_waiting, read_again, updated}
use fermix_linux.Chat.Timeline.Rows.{apply_live, merge}
use fermix_linux.Chat.Timeline.Turns.{
  start_turn, text_delta, held_turn, tool_event, text_done, turn_failed, end_turn, end_unread,
}
use fermix_linux.Chat.Timeline.Outbox.{settle}
use fermix_linux.Chat.Timeline.Cards.{
  hold_approval, approval_settled, hold_proposal, proposal_settled, refused, refuse, refuses_unread,
}

abbrev pub refused_unread : String
refused_unread = "Fermix refused the request. This app could not read why."

abbrev pub turn_unread : String
turn_unread = "The reply did not finish. This app could not read why."

abbrev pub settled_unread : String
settled_unread = "Fermix settled this request. This app could not read how."

abbrev pub stays : HeldProposal → Bool
stays held = is_resolved held.standing || is_refused held.standing

-- What a handshake clears.
abbrev pub cleared : Chat → Chat
cleared chat = record chat {
  connected = true;
  approvals = [];
  unshown = [];
  warned = [];
  unread_pages = min chat.unread_pages max_unread_pages;
  proposals = filter stays chat.proposals;
}

-- The chat at a handshake, before it reads.
unfoldable pub renewed : Chat → List ℕ → Chat
unfolding read_again
renewed chat on_screen = read_again (cleared chat) on_screen

abbrev pub events_of : List Outgoing → List ClientEvent
events_of pending = map (λ out. out.event) pending

unfoldable pub negotiated : Chat → List ℕ → Step
unfolding renewed catch_up
negotiated chat on_screen =
    let read = catch_up (renewed chat on_screen) in (read.0, read.1 ++ events_of read.0.pending)

unfoldable pub history_unreadable : Chat → Bool
history_unreadable chat = ltb max_unread_pages chat.unread_pages

-- Beside the chat, whether the kind is new on this connection.
unfoldable pub first_unreadable : Chat → String → Chat × Bool
first_unreadable chat kind =
    if str_mem kind chat.warned
    then (chat, false)
    else (record chat { warned = kind ∷ chat.warned }, true)

-- The held rows that the read out was to read again.
abbrev pub seqs_out : Option Pull → List ℕ
seqs_out (some (Pull.seqs out)) = out
seqs_out _ = []

unfoldable pub disconnected : Chat → Chat
disconnected chat = record chat {
  rows_to_read = extend_seqs chat.rows_to_read (seqs_out chat.pull);
  pull = none;
  connected = false;
  read_before_disconnect = extend_seqs [] (map seq_of chat.rows);
  older_waiting = none;
  turn = none;
}

-- `u32::saturating_add`
abbrev pub saturating_add_u32 : ℕ → ℕ → ℕ
saturating_add_u32 a b = min (a + b) 4294967295

-- The chat after a page that could not be read.
unfoldable pub unread : Chat → Chat
unread chat = record chat {
  read_before_disconnect = extend_seqs chat.read_before_disconnect (seqs_out chat.pull);
  pull = none;
  unread_pages = saturating_add_u32 chat.unread_pages 1;
}

unfoldable pub page_unread : Chat → Option Step
unfolding unread history_unreadable
page_unread chat =
    if history_unreadable (unread chat) then some (unread chat, []) else send_waiting (unread chat)

-- A step that sends nothing.
abbrev pub quiet : Chat → Option Step
quiet chat = some (chat, [])

-- `card_id.into_iter().for_each(…)`
abbrev pub where_named : Option String → Chat → (String → Chat) → Chat
where_named none chat change = chat
where_named (some id) chat change = change id

-- What an unreadable failure of a turn leaves.
unfoldable pub failed_unread : Chat → Option String → Chat
unfolding end_unread
failed_unread chat turn =
    let ended = end_unread chat turn in
    if ended.1 || is_some turn then record ended.0 { last_error = some turn_unread } else ended.0

-- The cases of the match on `kind` in `unreadable`.
pub data UnreadKind : Type 0 where
  proposal_card approval_card proposal_end approval_end page_end reply_end live_row turn_end
        turn_failure acceptance refusal ignored :
      UnreadKind

pub unread_kind : String → UnreadKind
unread_kind kind =
    if str_eq kind "proposal"
    then UnreadKind.proposal_card
    else if str_eq kind "approval"
    then UnreadKind.approval_card
    else if str_eq kind "proposal_resolved"
    then UnreadKind.proposal_end
    else if str_eq kind "approval_resolved"
    then UnreadKind.approval_end
    else if str_eq kind "history_page"
    then UnreadKind.page_end
    else if str_eq kind "text_done"
    then UnreadKind.reply_end
    else if str_eq kind "row"
    then UnreadKind.live_row
    else if str_eq kind "turn_done"
    then UnreadKind.turn_end
    else if str_eq kind "turn_error"
    then UnreadKind.turn_failure
    else if str_eq kind "accepted"
    then UnreadKind.acceptance
    else if str_eq kind "error"
    then UnreadKind.refusal
    else UnreadKind.ignored

-- What an unreadable event of a kind does.
unfoldable pub unreadable_as : UnreadKind → Chat → Unreadable → Option Step
unfolding failed_unread
unreadable_as UnreadKind.proposal_card chat u =
    quiet (record chat { unshown = keep chat.unshown Asks.proposal u.card_id })
unreadable_as UnreadKind.approval_card chat u =
    quiet (record chat { unshown = keep chat.unshown Asks.approval u.card_id })
unreadable_as UnreadKind.proposal_end chat u =
    quiet (where_named u.card_id chat (λ id. proposal_settled chat id settled_unread none))
unreadable_as UnreadKind.approval_end chat u =
    quiet (where_named u.card_id chat (λ id. approval_settled chat id))
unreadable_as UnreadKind.page_end chat u = page_unread chat
unreadable_as UnreadKind.reply_end chat u = some (catch_up (end_unread chat u.turn_id).0)
unreadable_as UnreadKind.live_row chat u = some (catch_up chat)
unreadable_as UnreadKind.turn_end chat u = quiet (end_unread chat u.turn_id).0
unreadable_as UnreadKind.turn_failure chat u = quiet (failed_unread chat u.turn_id)
unreadable_as UnreadKind.acceptance chat u =
    quiet (where_named u.client_msg_id chat (λ id. settle chat id))
unreadable_as UnreadKind.refusal chat u =
    if refuses_unread u
    then quiet (refuse chat u.client_msg_id refused_unread refused_unread)
    else quiet chat
unreadable_as UnreadKind.ignored chat u = quiet chat

unfoldable pub unreadable : Chat → Unreadable → Option Step
unfolding unreadable_as
unreadable chat u = unreadable_as (unread_kind u.kind) chat u

unfoldable pub receive : Chat → ServerEvent → ℤ → Option Step
unfolding start_turn text_delta tool_event
receive chat (ServerEvent.accepted client_msg_id _ _) now = quiet (settle chat client_msg_id)
receive chat (ServerEvent.turn_started turn_id in_reply_to) now =
    quiet (start_turn chat turn_id (some in_reply_to) now)
receive chat (ServerEvent.text_delta turn_id text) now = quiet (text_delta chat turn_id text now)
receive chat (ServerEvent.tool_event turn_id tool phase _ _) now =
    quiet
      (record chat { turn = some (tool_event (held_turn chat.turn turn_id now) tool phase now) })
receive chat (ServerEvent.text_done reply) now = text_done chat reply now
receive chat (ServerEvent.turn_error turn_id code message) now =
    quiet (turn_failed chat turn_id code message)
receive chat (ServerEvent.turn_done turn_id) now = quiet (end_turn chat turn_id)
receive chat (ServerEvent.row row) now =
    apply_live chat (record { row = row; turn_id = none; arrived = none })
receive chat (ServerEvent.row_updated seq) now = updated chat seq
receive chat (ServerEvent.approval card) now = quiet (hold_approval chat card now)
receive chat (ServerEvent.approval_resolved id _) now = quiet (approval_settled chat id)
receive chat (ServerEvent.proposal card) now = quiet (hold_proposal chat card now)
receive chat (ServerEvent.proposal_resolved resolution) now =
    quiet (proposal_settled chat resolution.proposal_id resolution.sentence resolution.result_text)
receive chat (ServerEvent.read_state seq) now = quiet (record chat { read_up_to = seq })
receive chat (ServerEvent.history_page page) now = merge chat page
receive chat (ServerEvent.error e) now = quiet (refused chat e)
receive chat (ServerEvent.unreadable u) now = unreadable chat u
receive chat _ now = quiet chat
