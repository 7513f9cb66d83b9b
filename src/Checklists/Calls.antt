-- ===== src/Checklists/Calls.antt =====
-- What is called of the library, in turn (desktop/core/src/checklists/library.rs, routing.rs).
use fermix_linux.Base.{ℕ, Bool, List, [], ◌∷◌, Option, none, some, String}
use fermix_linux.Chat.Wire.Lists.{ListOp, ListRow}
use fermix_linux.Chat.Wire.Requests.{ClientEvent}
use fermix_linux.Chat.Wire.Events.{ServerEvent}
use fermix_linux.Checklists.Library.{Library, draw}
use fermix_linux.Checklists.Library.Edits.{edit, remove, reword, create}
use fermix_linux.Checklists.Library.Answers.{negotiated, disconnected}
use fermix_linux.Checklists.Routing.{lists_event}

-- A call of the library, its arguments in the source's order.
pub data Call : Type 0 where
  draws : String → Bool → Call
  edits : String → ListOp → String → Call
  removes : String → Option String → String → Call
  rewords : String → ListRow → String → Option String → String → Call
  creates : String → Option String → String → Call
  handshake : ℕ → Call
  ending : Call
  event : ServerEvent → Call

-- What is sent, where there may be nothing.
abbrev pub sent_of : Option (List ClientEvent) → List ClientEvent
sent_of none = []
sent_of (some events) = events

unfoldable pub step : (String → String) → Library → Call → Library × List ClientEvent
unfolding draw edit remove reword create negotiated lists_event
step to_lowercase lib (Call.draws list_id removed) = draw lib list_id removed
step to_lowercase lib (Call.edits list_id op client_msg_id) = edit lib list_id op client_msg_id
step to_lowercase lib (Call.removes list_id row_id client_msg_id) =
    let next = remove lib list_id row_id client_msg_id in (next.0, sent_of next.1)
step to_lowercase lib (Call.rewords list_id began words memo client_msg_id) =
    reword lib list_id began words memo client_msg_id
step to_lowercase lib (Call.creates title folder client_msg_id) =
    let next = create lib title folder client_msg_id in (next.0, sent_of next.1)
step to_lowercase lib (Call.handshake version) = negotiated lib version
step to_lowercase lib Call.ending = (disconnected lib, [])
step to_lowercase lib (Call.event e) =
    let next = lists_event to_lowercase lib e in (next.0, sent_of next.1)

-- The library after a run of calls.
unfoldable pub run : (String → String) → Library → List Call → Library
unfolding step
run to_lowercase lib [] = lib
run to_lowercase lib (c ∷ calls) = run to_lowercase (step to_lowercase lib c).0 calls
