-- ===== src/Chat/Timeline/Reads.antt =====
-- The history reads of the chat (desktop/core/src/chat_wire/timeline.rs). A failed `expect` or an
-- overflow is `none`.
use fermix_linux.Base.{
  ℕ, ◌+◌, ◌-◌, Bool, false, not, ◌||◌, List, [], ◌∷◌, Option, none, some, is_some, ltb, leb, ◌==◌,
  max, ◌>>=◌, if◌then◌else◌, any, saturating_add, has_seq, insert_seq, extend_seqs, retain,
  first_seq, last_seq, range_seqs,
}
use fermix_linux.Chat.Wire.Requests.{Cursor, pull_event, read_state_event}
use fermix_linux.Chat.Timeline.State.{Chat, Step, HeldRow, Pull, page_limit, max_read, newest_page}

-- The seq of a held row.
abbrev pub seq_of : HeldRow → ℕ
seq_of held = held.row.server_seq

unfoldable pub send_pull : Chat → Pull → Cursor → ℕ → Step
send_pull chat pull cursor limit =
    if is_some chat.pull || not chat.connected
    then (chat, [])
    else (record chat { pull = some pull }, pull_event cursor limit ∷ [])

unfoldable pub read_page : Chat → Cursor → Step
unfolding send_pull
read_page chat cursor = send_pull chat (Pull.page cursor) cursor page_limit

-- Where `catch_up` reads from.
abbrev pub catch_up_cursor : Chat → Cursor
catch_up_cursor chat = elim chat.rows [
  | [] ↦ Cursor.before_seq newest_page
  | _ ∷ _ ↦ Cursor.after_seq chat.cursor
]

unfoldable pub catch_up : Chat → Step
unfolding read_page
catch_up chat = read_page chat (catch_up_cursor chat)

-- `u16::try_from(last - first + 1)`
unfoldable pub span : ℕ → ℕ → Option ℕ
span first last =
    if ltb last first
    then none
    else if leb (last - first + 1) 65535
    then some (last - first + 1)
    else none

-- The held rows to read again from the first of them on, in one read.
unfoldable pub read_rows : Chat → ℕ → Option Step
unfolding span send_pull
read_rows chat first =
    let taken = range_seqs first (saturating_add first (max_read - 1)) chat.rows_to_read in
    last_seq taken >>= λ last. span first last >>= λ limit. some (
      send_pull
        (record chat { rows_to_read = retain (λ n. not (has_seq n taken)) chat.rows_to_read })
        (Pull.seqs taken) (Cursor.after_seq (first - 1)) limit)

unfoldable pub send_waiting : Chat → Option Step
unfolding read_page read_rows
send_waiting chat =
    if is_some chat.pull || not chat.connected then some (chat, []) else elim chat.older_waiting [
      | some oldest ↦
          some (read_page (record chat { older_waiting = none }) (Cursor.before_seq oldest))
      | none ↦ elim (first_seq chat.rows_to_read) [
        | none ↦ some (chat, [])
        | some first ↦ read_rows chat first
      ]
    ]

unfoldable pub read_again : Chat → List ℕ → Chat
read_again chat seqs =
    let stale = retain (λ n. has_seq n seqs) chat.read_before_disconnect in
    record chat {
      read_before_disconnect = retain (λ n. not (has_seq n stale)) chat.read_before_disconnect;
      rows_to_read = extend_seqs chat.rows_to_read stale;
    }

unfoldable pub rows_on_screen : Chat → List ℕ → Option Step
rows_on_screen chat seqs = send_waiting (read_again chat seqs)

-- `chat.pull == Some(Pull::Page(Cursor::BeforeSeq(oldest)))`
abbrev pub is_read_of : Option Pull → ℕ → Bool
is_read_of (some (Pull.page (Cursor.before_seq seq))) oldest = seq == oldest
is_read_of _ oldest = false

unfoldable pub pull_older_from : Chat → ℕ → Step
unfolding read_page
pull_older_from chat oldest =
    if not chat.has_older
    then (chat, [])
    else if not chat.connected || is_read_of chat.pull oldest
    then (chat, [])
    else if is_some chat.pull
    then (record chat { older_waiting = some oldest }, [])
    else read_page chat (Cursor.before_seq oldest)

-- `rows.first()`
abbrev pub oldest_seq : List HeldRow → Option ℕ
oldest_seq [] = none
oldest_seq (held ∷ _) = some (seq_of held)

unfoldable pub pull_older : Chat → Step
unfolding pull_older_from
pull_older chat = elim (oldest_seq chat.rows) [
  | none ↦ (chat, [])
  | some oldest ↦ pull_older_from chat oldest
]

-- `rows.last().map_or(0, …)`
unfoldable pub newest_seq : List HeldRow → ℕ
newest_seq [] = 0
newest_seq (held ∷ []) = seq_of held
newest_seq (_ ∷ held ∷ rows) = newest_seq (held ∷ rows)

unfoldable pub newest_seen : Chat → Step
newest_seen chat =
    let newest = newest_seq chat.rows in
    if not chat.connected || leb newest (max chat.read_up_to chat.read_sent)
    then (chat, [])
    else (record chat { read_sent = newest }, read_state_event newest ∷ [])

unfoldable pub updated : Chat → ℕ → Option Step
updated chat seq =
    if any (λ held. seq_of held == seq) chat.rows
    then send_waiting (record chat { rows_to_read = insert_seq seq chat.rows_to_read })
    else some (chat, [])
