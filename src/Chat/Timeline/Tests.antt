-- ===== src/Chat/Timeline/Tests.antt =====
-- The theorems on the chat's timeline at concrete inputs.
use Prim.{tt}
use fermix_linux.Base.{
  ℕ, ◌≤◌, ◌<◌, ◌≡◌, ◌≢◌, refl, true, false, List, [], ◌∷◌, none, some, arith, String, is_some,
  max_u64, str_is_empty, trim, trim_end, trim_start, filter, map, Option, retain, extend_seqs,
  insert_seq, last_seq,
}
use fermix_linux.Base.Int.{pos}
use fermix_linux.Base.Ascending.{all_le, all_gt, ascends}
use fermix_linux.Chat.Wire.Rows.{Row, Page}
use fermix_linux.Chat.Wire.Cards.{is_waiting, takes, Proposal, ProposalState, Decision, Ask}
use fermix_linux.Chat.Wire.Requests.{ClientEvent, Cursor, msg_event}
use fermix_linux.Chat.Wire.Events.{ServerEvent}
use fermix_linux.Chat.Timeline.State.{asks_now, Chat, HeldRow, Standing, Pull, default}
use fermix_linux.Chat.Timeline.Reads.{
  seq_of, catch_up, read_page, send_pull, send_waiting, read_again,
}
use fermix_linux.Chat.Timeline.Rows.{put_row, put_rows, merged, merge, apply_live}
use fermix_linux.Chat.Timeline.Outbox.{
  send_trimmed, enqueue, send, answered_card, stand, answer_proposal,
}
use fermix_linux.Chat.Timeline.Receive.{receive, renewed, negotiated}
use fermix_linux.Chat.Timeline.Inputs.{Input, perform}
use fermix_linux.Chat.Timeline.Invariant.{seqs_of, reads_out, IsChat, pulls}
use fermix_linux.Chat.Timeline.Runs.{
  AreInputs, IsInput, run, ends_read, run-returns, run-rows, run-reads,
}
use fermix_linux.Chat.Timeline.Unread.{IsEvent}
use fermix_linux.Chat.Timeline.Lookup.{held_at, latest, over, held_at-put_rows}
use fermix_linux.Chat.Timeline.Progress.{ReadsOn, merge-forward}
use fermix_linux.Chat.Timeline.Waiting.{names}
use fermix_linux.Chat.Timeline.Sent.{SendsAt, names_none, run-sends}
use fermix_linux.Chat.Timeline.Decided.{decide-decide}

-- Every event is a line of 100 bytes.
abbrev encoded : ClientEvent → ℕ
encoded event = 100

abbrev row_of : ℕ → String → Row
row_of seq text = record {
  server_seq = seq;
  role = "assistant";
  text = text;
  ts = none;
  client_msg_id = none;
  in_reply_to = none;
  kind = none;
  media_refs = [];
  link_previews = [];
  skipped = 0;
}

abbrev page_of : List Row → ℕ → Page
page_of rows head = record {
  messages = rows;
  history_head_seq = head;
  next_after_seq = none;
  next_before_seq = none;
  skipped = 0;
}

-- A newest page, a live row after a gap, and the page of what was missed, which names more.
abbrev inputs : List Input
inputs =
    Input.negotiation []
    ∷ Input.event (ServerEvent.history_page (page_of (row_of 4 "a" ∷ row_of 5 "b" ∷ []) 5)) (pos 0)
    ∷ Input.event (ServerEvent.row (row_of 8 "c")) (pos 1)
    ∷ Input.event (ServerEvent.history_page (page_of (row_of 6 "d" ∷ row_of 7 "e" ∷ []) 9)) (pos 2)
    ∷ Input.message "hello" "m1"
    ∷ []

inputs-AreInputs : AreInputs inputs
unfolding AreInputs IsInput IsEvent all_le
inputs-AreInputs = (tt, ((refl, ground arith), (ground arith, ((refl, ground arith), (tt, tt)))))

run-returns_example : is_some (run encoded default 0 inputs) ≡ true
run-returns_example = run-returns encoded inputs inputs-AreInputs

-- The chat after the calls, with rows 4 to 7: it reads on from 7.
abbrev result : Option (Chat × ℕ) → Chat × ℕ
result none = (default, 0)
result (some ended) = ended

abbrev ended : Chat × ℕ
ended = result (run encoded default 0 inputs)

run-ended : run encoded default 0 inputs ≡ some ended
unfolding run perform negotiated renewed read_again catch_up read_page send_pull receive merge
    merged put_rows put_row extend_seqs insert_seq last_seq retain send_waiting apply_live send
    send_trimmed enqueue pulls ends_read
run-ended = refl

ended_reads : (map (λ held. seq_of held) ended.0.rows ≡ 4 ∷ 5 ∷ 6 ∷ 7 ∷ []) × (ended.1 ≡ 1)
unfolding run perform negotiated renewed read_again catch_up read_page send_pull receive merge
    merged put_rows put_row extend_seqs insert_seq last_seq retain send_waiting apply_live send
    send_trimmed enqueue pulls ends_read trim_end trim_start
ended_reads = (refl, refl)

run-rows_example :
    (ascends (seqs_of ended.0.rows) ≡ true)
    × (all_le ended.0.cursor (seqs_of ended.0.rows) ≡ true)
    × (all_le ended.0.cursor ended.0.rows_to_read ≡ true)
    × (ended.0.cursor < max_u64)
run-rows_example = run-rows encoded inputs ended.0 ended.1 inputs-AreInputs run-ended

run-reads_example : (ended.1 ≡ reads_out ended.0) × (ended.1 ≤ 1)
run-reads_example = run-reads encoded inputs ended.0 ended.1 inputs-AreInputs run-ended

abbrev held_of : ℕ → String → HeldRow
held_of seq text = record { row = row_of seq text; turn_id = some "t"; arrived = none }

-- Row 5 comes twice, the second over the first.
abbrev came : List Row
came = row_of 5 "b" ∷ row_of 3 "c" ∷ row_of 5 "d" ∷ []

ascends_4_5 : ascends (4 ∷ 5 ∷ []) ≡ true
unfolding ascends all_gt
ascends_4_5 = refl

held_at-put_rows_example :
    held_at 5 (put_rows (held_of 4 "a" ∷ held_of 5 "e" ∷ []) came)
    ≡ over (latest 5 came) (held_at 5 (held_of 4 "a" ∷ held_of 5 "e" ∷ []))
held_at-put_rows_example = held_at-put_rows 5 (held_of 4 "a" ∷ held_of 5 "e" ∷ []) came ascends_4_5

-- A chat that reads what is past row 5.
abbrev reading : Chat
reading = record default {
  connected = true;
  rows = held_of 5 "e" ∷ [];
  cursor = 5;
  pull = some (Pull.page (Cursor.after_seq 5));
}

reading-IsChat : IsChat reading
unfolding ascends all_le all_gt
reading-IsChat = (refl, refl, ground arith, refl, refl, refl, refl)

merge-forward_example : ReadsOn 5 9 (merge reading (page_of (row_of 6 "d" ∷ row_of 7 "e" ∷ []) 9))
merge-forward_example =
    merge-forward reading (page_of (row_of 6 "d" ∷ row_of 7 "e" ∷ []) 9) 5 reading-IsChat refl

hi_is_some : str_is_empty (trim " hi ") ≡ false
unfolding trim_end trim_start
hi_is_some = refl

-- The connection comes up, another message is accepted, and the connection is lost.
abbrev later : List Input
later =
    Input.negotiation []
    ∷ Input.event (ServerEvent.accepted "m0" false none) (pos 5)
    ∷ Input.disconnection
    ∷ []

none_run : run encoded default 0 [] ≡ some (default, 0)
unfolding run
none_run = refl

run-sends_example : SendsAt (msg_event "m1" (trim " hi ")) [] (
    run encoded
      (send encoded default " hi " "m1").0
      (reads_out (send encoded default " hi " "m1").0)
      later)
unfolding names_none names AreInputs IsInput IsEvent
run-sends_example =
    run-sends encoded [] later default 0 " hi " "m1" [] tt none_run hi_is_some (ground arith)
      (ground arith) (tt, (tt, (tt, tt))) refl

-- A proposal to call a tool, and a chat that holds it.
abbrev proposal : Proposal
proposal = record {
  proposal_id = "p1";
  state = ProposalState.waiting;
  ask = Ask.call "m" "send_mail" "{}";
  task = record { job_id = "j"; name = none };
  watcher = none;
  source_ref = none;
  created_at = "";
  expires_at = "";
  received_at = none;
  decided_at = none;
  decided_from = none;
  result_status = none;
  status_sentence = "";
  summary = "";
  outside = record { args = []; reason = none; cue = none };
}

abbrev proposing : Chat
proposing = record default {
  proposals =
      record { proposal = proposal; standing = Standing.opened; created = none; expires = none }
      ∷ [];
}

proposing-pending : (answer_proposal encoded proposing "p1" Decision.confirm "m1").0.pending ≢ []
unfolding answer_proposal answered_card enqueue asks_now stand is_waiting takes
proposing-pending = λ e. cc e

decide-decide_example :
    answer_proposal encoded
      (answer_proposal encoded proposing "p1" Decision.confirm "m1").0
      "p1"
      Decision.deny
      "m2"
    ≡ ((answer_proposal encoded proposing "p1" Decision.confirm "m1").0, [])
unfolding filter
decide-decide_example =
    decide-decide encoded proposing "p1" Decision.confirm Decision.deny "m1" "m2" (ground arith)
      proposing-pending
