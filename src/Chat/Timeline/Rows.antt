-- ===== src/Chat/Timeline/Rows.antt =====
-- The rows of the chat (desktop/core/src/chat_wire/timeline.rs): a live row, and the page that
-- answers a read.
use fermix_linux.Base.{
  ℕ, ◌+◌, Bool, true, false, not, ◌&&◌, List, [], ◌∷◌, ◌++◌, map, Option, none, some, is_some, ltb,
  leb, ◌==◌, max, length, ◌>>=◌, if◌then◌else◌, max_u64, has_seq, extend_seqs, retain, last_seq,
}
use fermix_linux.Chat.Wire.Rows.{Row, Page}
use fermix_linux.Chat.Wire.Requests.{Cursor}
use fermix_linux.Chat.Timeline.State.{Chat, Step, HeldRow, Pull, max_held}
use fermix_linux.Chat.Timeline.Reads.{seq_of, read_page, catch_up, send_waiting}

-- `chat.cursor + 1`
abbrev pub successor : ℕ → Option ℕ
successor n = if n == max_u64 then none else some (n + 1)

-- The oldest row goes when more than `max_held` are held.
unfoldable pub forget_oldest : Chat → Chat
forget_oldest chat = elim chat.rows [
  | [] ↦ chat
  | oldest ∷ rows ↦
      if ltb max_held (length chat.rows)
      then record chat {
        rows = rows;
        rows_to_read = retain (λ n. not (n == seq_of oldest)) chat.rows_to_read;
        read_before_disconnect = retain (λ n. not (n == seq_of oldest)) chat.read_before_disconnect;
        has_older = true;
      }
      else chat
]

unfoldable pub apply_live : Chat → HeldRow → Option Step
unfolding forget_oldest
apply_live chat held =
    if leb (seq_of held) chat.cursor
    then some (chat, [])
    else (successor chat.cursor >>= λ next. some (
        if not (seq_of held == next) then catch_up chat else (
          forget_oldest (record chat { rows = chat.rows ++ held ∷ []; cursor = seq_of held }),
          [],
        )))

-- A page's row over the held one of its seq, or where it stands: `binary_search_by_key` on rows
-- that ascend.
unfoldable pub put_row : Row → List HeldRow → List HeldRow
put_row row [] = record { row = row; turn_id = none; arrived = none } ∷ []
put_row row (held ∷ rows) =
    let rest = put_row row rows in
    if row.server_seq == seq_of held
    then record held { row = row } ∷ rows
    else if ltb row.server_seq (seq_of held)
    then record { row = row; turn_id = none; arrived = none } ∷ held ∷ rows
    else held ∷ rest

unfoldable pub put_rows : List HeldRow → List Row → List HeldRow
put_rows held [] = held
put_rows held (row ∷ rows) = put_rows (put_row row held) rows

-- What a forward read asked from.
abbrev pub asked_from : Option Pull → Option ℕ
asked_from (some (Pull.page (Cursor.after_seq seq))) = some seq
asked_from _ = none

abbrev pub is_backward : Option Pull → Bool
is_backward (some (Pull.page (Cursor.before_seq _))) = true
is_backward _ = false

-- The rows that were asked again and are past the newest that came: none where none came.
abbrev pub unanswered : Option Pull → Option ℕ → List ℕ
unanswered (some (Pull.seqs asked)) (some reached) = retain (λ n. ltb reached n) asked
unanswered _ _ = []

abbrev pub or_zero : Option ℕ → ℕ
or_zero none = 0
or_zero (some n) = n

-- `asked_from == Some(chat.cursor)`
abbrev pub is_stalled : Option ℕ → ℕ → Bool
is_stalled none cursor = false
is_stalled (some seq) cursor = seq == cursor

abbrev pub page_seqs : Page → List ℕ
page_seqs page = extend_seqs [] (map (λ row. row.server_seq) page.messages)

-- The cursor after a page: its newest row, or for a forward page the last that it names.
abbrev pub cursor_after : Chat → Page → ℕ
cursor_after chat page =
    max (max chat.cursor (or_zero (last_seq (page_seqs page))))
      (if is_some (asked_from chat.pull) then or_zero page.next_after_seq else 0)

-- The chat with a page's rows and marks, before it reads on.
unfoldable pub merged : Chat → Page → Chat
merged chat page = record chat {
  unread_pages = 0;
  pull = none;
  rows = put_rows chat.rows page.messages;
  cursor = cursor_after chat page;
  head = page.history_head_seq;
  has_older = if is_backward chat.pull then is_some page.next_before_seq else chat.has_older;
  read_before_disconnect =
      retain (λ n. not (has_seq n (page_seqs page))) chat.read_before_disconnect;
  rows_to_read = extend_seqs chat.rows_to_read (unanswered chat.pull (last_seq (page_seqs page)));
}

unfoldable pub merge : Chat → Page → Option Step
unfolding merged
merge chat page =
    let later = merged chat page in
    if ltb later.cursor later.head && not (is_stalled (asked_from chat.pull) later.cursor)
    then some (read_page later (Cursor.after_seq later.cursor))
    else send_waiting later
