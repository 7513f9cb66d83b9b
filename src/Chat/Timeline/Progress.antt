-- ===== src/Chat/Timeline/Progress.antt =====
-- The page that answers a read, and the read that it sends (desktop/core/src/chat_wire/timeline.rs).
use Prim.{tt}
use fermix_linux.Base.{
  ℕ, ◌<◌, ◌≡◌, refl, not, ◌||◌, Option, none, some, is_some, arith, Bool-cases, Option-cases, inl,
  inr, ◌>>=◌, first_seq, last_seq,
}
use fermix_linux.Chat.Wire.Rows.{Page}
use fermix_linux.Chat.Wire.Requests.{Cursor}
use fermix_linux.Chat.Timeline.State.{Chat, Step, Pull}
use fermix_linux.Chat.Timeline.Reads.{send_pull, read_page, read_rows, send_waiting, span}
use fermix_linux.Chat.Timeline.Rows.{asked_from, merged, merge}
use fermix_linux.Chat.Timeline.Invariant.{IsChat, taken_from}
use fermix_linux.Chat.Timeline.Merging.{reads_on, cursor_after_lem}

-- The step has no read of the rows past a seq.
abbrev pub NoForward : Option Step → Type 0
NoForward none = Unit {0}
NoForward (some (c, es)) = asked_from c.pull ≡ none

read_rows-NoForward : (c : Chat) (first : ℕ) → c.pull ≡ none → NoForward (read_rows c first)
unfolding read_rows send_pull
read_rows-NoForward c first e = elim (Option-cases (last_seq (taken_from c first))) [
  | inl f ↦ rw (f, ◌>>=◌) tt
  | inr (last, f) ↦ elim (Option-cases (span first last)) [
    | inl g ↦ rw (f, ◌>>=◌, g) tt
    | inr (limit, g) ↦ rw (f, ◌>>=◌, g) (ground (arith, e))
  ]
]

send_waiting-NoForward : (c : Chat) → c.pull ≡ none → NoForward (send_waiting c)
unfolding send_waiting read_page send_pull
send_waiting-NoForward c e = elim (Bool-cases (is_some c.pull || not c.connected)) [
  | inl busy ↦ rw (busy, e) refl
  | inr free ↦ elim (Option-cases c.older_waiting) [
    | inr (oldest, f) ↦ rw (free, f) (ground arith)
    | inl f ↦ elim (Option-cases (first_seq c.rows_to_read)) [
      | inl g ↦ rw (free, f, g, e) refl
      | inr (first, g) ↦ rw (free, f, g) (read_rows-NoForward c first e)
    ]
  ]
]

-- The step reads on from the cursor of its chat, which is past the seq and not yet at the head.
abbrev pub ReadsOn : ℕ → ℕ → Option Step → Type 0
ReadsOn seq head none = Unit {0}
ReadsOn seq head (some (c, es)) =
    (next : ℕ) → asked_from c.pull ≡ some next → (seq < next) × (next < head)

NoForward-ReadsOn : (seq head : ℕ) (step : Option Step) → NoForward step → ReadsOn seq head step
NoForward-ReadsOn seq head none h = tt
NoForward-ReadsOn seq head (some (c, es)) h = λ next e. cc (h, e)

-- Where a page answers a read of what is past a seq, and the chat then reads forward again, it
-- reads past a greater seq, which is below the head that the page names.
pub merge-forward :
    (c : Chat) (page : Page) (seq : ℕ)
    → IsChat c
    → c.pull ≡ some (Pull.page (Cursor.after_seq seq))
    → ReadsOn seq page.history_head_seq (merge c page)
unfolding merge read_page send_pull merged
merge-forward c page seq k e = elim (Bool-cases (reads_on c page)) [
  | inl on ↦ rw (on) (λ next f. ground (arith, k, e, f, on, cursor_after_lem c page))
  | inr ended ↦ rw (ended) (
      NoForward-ReadsOn seq page.history_head_seq (send_waiting (merged c page))
        (send_waiting-NoForward (merged c page) refl))
]
