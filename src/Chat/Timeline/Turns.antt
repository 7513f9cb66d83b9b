-- ===== src/Chat/Timeline/Turns.antt =====
-- The turn that answers now (desktop/core/src/chat_wire/timeline.rs).
use fermix_linux.Base.{
  Bool, true, false, ◌&&◌, [], ◌∷◌, ◌++◌, Option, none, some, is_some, String, ◌+++◌, str_eq,
  if◌then◌else◌, update_first,
}
use fermix_linux.Base.Int.{ℤ}
use fermix_linux.Chat.Wire.Events.{ToolPhase}
use fermix_linux.Chat.Wire.Rows.{Row, Reply}
use fermix_linux.Chat.Wire.Requests.{cancel_event}
use fermix_linux.Chat.Timeline.State.{Chat, Step, Turn, ToolRun, ToolState}
use fermix_linux.Chat.Timeline.Rows.{apply_live}

abbrev pub stopped : String
stopped = "The reply was stopped"

abbrev pub interrupted : String
interrupted = "The reply was interrupted"

unfoldable pub can_stop : Chat → Bool
can_stop chat = elim chat.turn [ none ↦ false | some turn ↦ is_some turn.in_reply_to ]

-- The request that the running turn answers.
abbrev pub request_of : Option Turn → Option String
request_of none = none
request_of (some turn) = turn.in_reply_to

abbrev pub stopping_turn : Option Turn → Option Turn
stopping_turn none = none
stopping_turn (some turn) = some (record turn { stopping = true })

unfoldable pub stop : Chat → Step
stop chat = elim (request_of chat.turn) [
  | none ↦ (chat, [])
  | some id ↦
      if chat.connected
      then (record chat { turn = stopping_turn chat.turn }, cancel_event id ∷ [])
      else (chat, [])
]

-- The turn that `start_turn` sets.
abbrev pub new_turn : String → Option String → ℤ → Turn
new_turn turn_id in_reply_to now = record {
  turn_id = turn_id;
  in_reply_to = in_reply_to;
  draft = "";
  tools = [];
  started = now;
  stopping = false;
}

unfoldable pub start_turn : Chat → String → Option String → ℤ → Chat
start_turn chat turn_id in_reply_to now = record chat {
  turn = some (new_turn turn_id in_reply_to now);
}

-- Whether the turn held is the one of this id.
abbrev pub is_turn : Option Turn → String → Bool
is_turn none turn_id = false
is_turn (some turn) turn_id = str_eq turn.turn_id turn_id

-- The turn `turn_id`, begun here when this connection joined it midway.
abbrev pub held_turn : Option Turn → String → ℤ → Turn
held_turn none turn_id now = new_turn turn_id none now
held_turn (some turn) turn_id now =
    if str_eq turn.turn_id turn_id then turn else new_turn turn_id none now

unfoldable pub text_delta : Chat → String → String → ℤ → Chat
text_delta chat turn_id text now =
    let turn = held_turn chat.turn turn_id now in
    record chat { turn = some (record turn { draft = turn.draft +++ text }) }

abbrev pub is_running : String → ToolRun → Bool
is_running tool run =
    str_eq run.name tool && elim run.state [ ToolState.running ↦ true | ToolState.done ↦ false ]

unfoldable pub tool_event : Turn → String → ToolPhase → ℤ → Turn
tool_event turn tool ToolPhase.started now = record turn {
  tools =
      turn.tools
      ++ record { name = tool; state = ToolState.running; started = now; ended = none } ∷ [];
}
tool_event turn tool ToolPhase.stopped now = record turn {
  tools =
      update_first (is_running tool)
        (λ run. record run { state = ToolState.done; ended = some now }) turn.tools;
}
tool_event turn tool (ToolPhase.other _) now = turn

unfoldable pub end_turn : Chat → String → Chat
end_turn chat turn_id = record chat { turn = if is_turn chat.turn turn_id then none else chat.turn }

-- The turn's failure as a sentence.
unfoldable pub failure_sentence : String → String → String
failure_sentence code message =
    if str_eq code "cancelled"
    then stopped
    else if str_eq code "interrupted"
    then interrupted
    else "The reply did not finish: " +++ message

unfoldable pub turn_failed : Chat → String → String → String → Chat
unfolding end_turn
turn_failed chat turn_id code message = record (end_turn chat turn_id) {
  last_error = some (failure_sentence code message);
}

-- Whether a turn ended, beside the chat.
unfoldable pub end_unread : Chat → Option String → Chat × Bool
unfolding end_turn
end_unread chat (some id) = (end_turn chat id, is_turn chat.turn id)
end_unread chat none = (record chat { turn = none }, is_some chat.turn)

-- The row of a reply.
abbrev pub reply_row : Reply → Option String → Row
reply_row reply in_reply_to = record {
  server_seq = reply.server_seq;
  role = "assistant";
  text = reply.text;
  ts = reply.ts;
  client_msg_id = none;
  in_reply_to = in_reply_to;
  kind = none;
  media_refs = [];
  link_previews = [];
  skipped = reply.skipped;
}

unfoldable pub text_done : Chat → Reply → ℤ → Option Step
unfolding end_turn
text_done chat reply now = apply_live (end_turn chat reply.turn_id) (record {
  row = reply_row reply (if is_turn chat.turn reply.turn_id then request_of chat.turn else none);
  turn_id = some reply.turn_id;
  arrived = some now;
})
