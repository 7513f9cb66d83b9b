-- ===== src/Chat/Timeline/Merging.antt =====
-- What a page that answers a read keeps of the chat.
use fermix_linux.Base.{
  ℕ, ◌-◌, ◌≤◌, ◌<◌, ◌≡◌, refl, ap, ◌∙◌, Bool, true, not, ◌&&◌, List, [], ◌∷◌, Option, none, some,
  arith, ltb, Bool-cases, Option-cases, inl, inr, max_u64, retain, last_seq, has_seq,
}
use fermix_linux.Base.Ascending.{
  all_le, ascends, all_le_mono, all_le-extend, all_le-retain, ascends-extend, ascends_nil,
  last_seq-all_le, last_seq-none,
}
use fermix_linux.Chat.Wire.Rows.{Page}
use fermix_linux.Chat.Wire.Requests.{Cursor}
use fermix_linux.Chat.Timeline.State.{Chat, Pull}
use fermix_linux.Chat.Timeline.Rows.{
  asked_from, unanswered, or_zero, is_stalled, page_seqs, cursor_after, merged, merge,
}
use fermix_linux.Chat.Timeline.Invariant.{
  seqs_of, pull_le, IsChat, WillBeGood, read_page-IsGood, send_waiting-WillBeGood,
}
use fermix_linux.Chat.Timeline.Pages.{row_seqs, seqs_of-put_rows}

-- The seqs of a page are below the greatest number of 64 bits.
abbrev pub IsPage : Page → Type 0
IsPage page =
    (all_le (max_u64 - 1) (row_seqs page.messages) ≡ true) × (or_zero page.next_after_seq < max_u64)

abbrev newest_of : Page → ℕ
newest_of page = or_zero (last_seq (page_seqs page))

page_all_le : (page : Page) → all_le (newest_of page) (row_seqs page.messages) ≡ true
unfolding all_le
page_all_le page =
    let extended = all_le-extend (newest_of page) [] (row_seqs page.messages) in
    elim (Option-cases (last_seq (page_seqs page))) [
      | inl e ↦ ground (arith, extended, last_seq-none (page_seqs page) e)
      | inr (last, e) ↦ ground (
        arith,
        e,
        extended,
        last_seq-all_le (page_seqs page) last
            (ascends-extend [] (row_seqs page.messages) ascends_nil) e,
      )
    ]

last_le : (n : ℕ) (xs : List ℕ) → all_le n xs ≡ true → or_zero (last_seq xs) ≤ n
unfolding all_le last_seq
last_le n [] h = ground arith
last_le n (x ∷ []) h = ground (arith, h)
last_le n (x ∷ y ∷ xs) h = ground (arith, h, last_le n (y ∷ xs))

newest_lt : (page : Page) → IsPage page → newest_of page < max_u64
unfolding all_le
newest_lt page v = ground (
  arith,
  v,
  last_le (max_u64 - 1) (page_seqs page),
  all_le-extend (max_u64 - 1) [] (row_seqs page.messages),
)

unanswered_le :
    (cursor : ℕ) (pull : Option Pull) (reached : Option ℕ)
    → pull_le cursor pull ≡ true
    → all_le cursor (unanswered pull reached) ≡ true
unfolding all_le
unanswered_le cursor none reached h = refl
unanswered_le cursor (some (Pull.page p)) reached h = refl
unanswered_le cursor (some (Pull.seqs asked)) none h = refl
unanswered_le cursor (some (Pull.seqs asked)) (some reached) h =
    all_le-retain cursor (λ n. ltb reached n) asked h

-- The cursor does not go back, and passes the page's newest row.
pub cursor_after_lem :
    (c : Chat) (page : Page)
    → (c.cursor ≤ cursor_after c page) × (newest_of page ≤ cursor_after c page)
cursor_after_lem c page = ground arith

cursor_after_lt :
    (c : Chat) (page : Page) → IsPage page → c.cursor < max_u64 → cursor_after c page < max_u64
cursor_after_lt c page v h = ground (arith, v, h, newest_lt page v)

pub merged-IsChat : (c : Chat) (page : Page) → IsPage page → IsChat c → IsChat (merged c page)
unfolding merged
merged-IsChat c page v k =
    let later = cursor_after c page in
    let bounds = cursor_after_lem c page in
    let answers = unanswered c.pull (last_seq (page_seqs page)) in
    (
      ap ascends (seqs_of-put_rows c.rows page.messages)
          ∙ ascends-extend (seqs_of c.rows) (row_seqs page.messages) k.0,
      ap (all_le later) (seqs_of-put_rows c.rows page.messages)
          ∙ all_le-extend later (seqs_of c.rows) (row_seqs page.messages)
          ∙ ground (
            arith,
            all_le_mono c.cursor later (seqs_of c.rows) bounds.0 k.1,
            all_le_mono (newest_of page) later (row_seqs page.messages) bounds.1 (page_all_le page),
          ),
      cursor_after_lt c page v k.2,
      all_le-extend later c.rows_to_read answers
          ∙ ground (
            arith,
            all_le_mono c.cursor later c.rows_to_read bounds.0 k.3,
            all_le_mono c.cursor later answers bounds.0
                (unanswered_le c.cursor c.pull (last_seq (page_seqs page)) k.5),
          ),
      all_le_mono c.cursor later
          (retain (λ n. not (has_seq n (page_seqs page))) c.read_before_disconnect) bounds.0
          (all_le-retain c.cursor (λ n. not (has_seq n (page_seqs page))) c.read_before_disconnect
            k.4),
      refl,
      k.6,
    )

-- Whether the page's read goes on.
abbrev pub reads_on : Chat → Page → Bool
reads_on c page =
    ltb (merged c page).cursor (merged c page).head
    && not (is_stalled (asked_from c.pull) (merged c page).cursor)

-- A page answers the read that was out.
pub merge-WillBeGood :
    (c : Chat) (page : Page) → IsPage page → IsChat c → WillBeGood 0 (merge c page)
unfolding merge
merge-WillBeGood c page v k =
    let later = merged c page in
    let good = merged-IsChat c page v k in
    elim (Bool-cases (reads_on c page)) [
      | inl on ↦
          rw (on) (read_page-IsGood later (Cursor.after_seq later.cursor) good (ground arith))
      | inr ended ↦ rw (ended) (send_waiting-WillBeGood later good)
    ]
