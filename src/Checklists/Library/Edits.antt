-- ===== src/Checklists/Library/Edits.antt =====
-- The edits made here, as the library draws and sends them
-- (desktop/core/src/checklists/library.rs).
use fermix_linux.Base.{
  Bool, true, false, not, ◌||◌, List, [], ◌∷◌, ◌++◌, Option, none, some, String, ltb, leb,
  if◌then◌else◌, length, any,
}
use fermix_linux.Chat.Wire.Lists.{ListOp, ListRow}
use fermix_linux.Chat.Wire.Requests.{ClientEvent}
use fermix_linux.Checklists.Draft.{named_rows, is_local, sendable, reworded}
use fermix_linux.Checklists.State.{edit as edit_state, refuse as refuse_state}
use fermix_linux.Checklists.Index.{lacks, refuse as refuse_index}
use fermix_linux.Checklists.Library.{
  Library, Outgoing, event_of, state_mut, deliver, draw, max_waiting,
}

abbrev pub too_many : String
too_many = "Too many changes are waiting to send"

abbrev pub refuse_here : Library → Option String → Library
refuse_here lib sentence = record lib { index = refuse_index lib.index sentence }

abbrev pub refuse_list : Library → String → String → Library
unfolding state_mut
refuse_list lib list_id sentence = state_mut lib list_id (λ s. refuse_state s sentence)

-- Whether an op is a list's own restore.
abbrev pub restores_list : ListOp → Bool
restores_list (ListOp.restore none title) = true
restores_list _ = false

unfoldable pub say_refused : Library → String → ListOp → String → Library
unfolding state_mut
say_refused lib list_id op sentence =
    if restores_list op || lacks lib.index list_id
    then refuse_here lib (some sentence)
    else refuse_list lib list_id sentence

unfoldable pub takes : Library → String → ListOp → Library × Bool
unfolding say_refused sendable named_rows
takes lib list_id op =
    if not (sendable op) || any is_local (named_rows op)
    then (lib, false)
    else if ltb (length lib.unanswered) max_waiting
    then (lib, true)
    else (say_refused lib list_id op too_many, false)

abbrev pub outgoing : String → Option String → ListOp → Outgoing
outgoing client_msg_id list_id op = record {
  client_msg_id = client_msg_id;
  list_id = list_id;
  op = op;
}

-- An edit is kept until it is answered.
abbrev pub kept : Library → Outgoing → Library
kept lib sent = record lib { unanswered = lib.unanswered ++ sent ∷ [] }

unfoldable pub send_edit : Library → String → ListOp → String → Library × List ClientEvent
unfolding state_mut draw deliver
send_edit lib list_id op client_msg_id =
    let drawn = draw (state_mut lib list_id (λ s. edit_state s op client_msg_id)) list_id false in
    let sent = outgoing client_msg_id (some list_id) op in
    (kept drawn.0 sent, drawn.1 ++ deliver drawn.0 (event_of sent))

unfoldable pub edit : Library → String → ListOp → String → Library × List ClientEvent
unfolding takes send_edit
edit lib list_id op client_msg_id =
    let taken = takes lib list_id op in
    if taken.1 then send_edit taken.0 list_id op client_msg_id else (taken.0, [])

abbrev pub removal_op : Option String → ListOp
removal_op (some row_id) = ListOp.remove row_id
removal_op none = ListOp.remove_list

unfoldable pub remove :
    Library → String → Option String → String → Library × Option (List ClientEvent)
unfolding takes send_edit
remove lib list_id row_id client_msg_id =
    let taken = takes lib list_id (removal_op row_id) in
    let sent = send_edit taken.0 list_id (removal_op row_id) client_msg_id in
    if taken.1 then (sent.0, some sent.1) else (taken.0, none)

unfoldable pub reword :
    Library → String → ListRow → String → Option String → String → Library × List ClientEvent
unfolding edit reworded
reword lib list_id began words memo client_msg_id = elim (reworded began words memo) [
  | none ↦ (lib, [])
  | some op ↦ edit lib list_id op client_msg_id
]

unfoldable pub create :
    Library → String → Option String → String → Library × Option (List ClientEvent)
unfolding sendable deliver
create lib title folder client_msg_id =
    let op = ListOp.create title folder in
    let sent = outgoing client_msg_id none op in
    let clear = refuse_here lib none in
    if not (sendable op)
    then (lib, none)
    else if leb max_waiting (length lib.unanswered)
    then (refuse_here lib (some too_many), none)
    else (kept clear sent, some (deliver clear (event_of sent)))
