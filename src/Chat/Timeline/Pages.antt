-- ===== src/Chat/Timeline/Pages.antt =====
-- What a live row and a page keep of the chat.
use fermix_linux.Base.{
  ℕ, ◌+◌, ◌≤◌, ◌<◌, ◌≡◌, refl, ap, ◌∙◌, true, false, not, List, [], ◌∷◌, ◌++◌, map, Option, none,
  some, arith, leb, ◌==◌, Bool-cases, inl, inr, max_u64, extend_seqs, insert_seq,
}
use fermix_linux.Base.Ascending.{
  all_le, ascends, all_le_mono, all_le-retain, ascends-append, all_le-append,
}
use fermix_linux.Chat.Wire.Rows.{Row}
use fermix_linux.Chat.Wire.Requests.{Cursor}
use fermix_linux.Chat.Timeline.State.{Chat, HeldRow, Pull}
use fermix_linux.Chat.Timeline.Reads.{seq_of}
use fermix_linux.Chat.Timeline.Rows.{forget_oldest, apply_live, put_row, put_rows}
use fermix_linux.Chat.Timeline.Invariant.{
  seqs_of, pull_le, IsChat, reads_out, pulls, IsGood, WillBeGood, catch_up-IsGood,
}

-- A page's seqs.
abbrev pub row_seqs : List Row → List ℕ
row_seqs rows = map (λ row. row.server_seq) rows

-- A row put in its place puts its seq in its place.
pub seqs_of-put_row :
    (row : Row) (rows : List HeldRow)
    → seqs_of (put_row row rows) ≡ insert_seq row.server_seq (seqs_of rows)
unfolding put_row insert_seq
seqs_of-put_row row [] = refl
seqs_of-put_row row (held ∷ rows) = ground (arith, seqs_of-put_row row rows)

pub seqs_of-put_rows :
    (held : List HeldRow) (rows : List Row)
    → seqs_of (put_rows held rows) ≡ extend_seqs (seqs_of held) (row_seqs rows)
unfolding put_rows extend_seqs
seqs_of-put_rows held [] = refl
seqs_of-put_rows held (row ∷ rows) =
    seqs_of-put_rows (put_row row held) rows
    ∙ ap (λ s. extend_seqs s (row_seqs rows)) (seqs_of-put_row row held)

forget-IsChat :
    (c : Chat) (rows : List HeldRow) → c.rows ≡ rows → IsChat c → IsChat (forget_oldest c)
unfolding forget_oldest all_le ascends
forget-IsChat c [] e k = ground (arith, e, k)
forget-IsChat c (oldest ∷ rows) e k = ground (
  arith,
  e,
  k,
  all_le-retain c.cursor (λ n. not (n == seq_of oldest)) c.rows_to_read,
  all_le-retain c.cursor (λ n. not (n == seq_of oldest)) c.read_before_disconnect,
)

forget-pull : (c : Chat) (rows : List HeldRow) → c.rows ≡ rows → (forget_oldest c).pull ≡ c.pull
unfolding forget_oldest
forget-pull c [] e = ground (arith, e)
forget-pull c (oldest ∷ rows) e = ground (arith, e)

seqs_of-append :
    (rows : List HeldRow) (held : HeldRow)
    → seqs_of (rows ++ held ∷ []) ≡ seqs_of rows ++ seq_of held ∷ []
seqs_of-append [] held = refl
seqs_of-append (x ∷ rows) held = ap (λ s. seq_of x ∷ s) (seqs_of-append rows held)

-- The chat with a live row at its end.
abbrev shown_live : Chat → HeldRow → Chat
shown_live c held = record c { rows = c.rows ++ held ∷ []; cursor = seq_of held }

pub pull_le_mono :
    (m n : ℕ) (pull : Option Pull) → m ≤ n → pull_le m pull ≡ true → pull_le n pull ≡ true
pull_le_mono m n none h k = refl
pull_le_mono m n (some (Pull.page (Cursor.after_seq seq))) h k = ground (arith, h, k)
pull_le_mono m n (some (Pull.page (Cursor.before_seq seq))) h k = refl
pull_le_mono m n (some (Pull.seqs seqs)) h k = all_le_mono m n seqs h k

shown_live-IsChat :
    (c : Chat) (held : HeldRow)
    → c.cursor < seq_of held
    → seq_of held < max_u64
    → IsChat c
    → IsChat (shown_live c held)
shown_live-IsChat c held h small k = ground (
  arith,
  k,
  h,
  seqs_of-append c.rows held,
  ascends-append c.cursor (seq_of held) (seqs_of c.rows),
  all_le-append (seq_of held) (seq_of held) (seqs_of c.rows),
  all_le_mono c.cursor (seq_of held) (seqs_of c.rows),
  all_le_mono c.cursor (seq_of held) c.rows_to_read,
  all_le_mono c.cursor (seq_of held) c.read_before_disconnect,
  pull_le_mono c.cursor (seq_of held) c.pull,
)

forgotten_live-IsGood :
    (c : Chat) (held : HeldRow)
    → c.cursor < seq_of held
    → seq_of held < max_u64
    → IsChat c
    → IsGood (reads_out c) (forget_oldest (shown_live c held), [])
unfolding pulls
forgotten_live-IsGood c held h small k =
    let shown = shown_live c held in
    (
      forget-IsChat shown shown.rows refl (shown_live-IsChat c held h small k),
      ground (arith, forget-pull shown shown.rows refl),
    )

pub apply_live-WillBeGood :
    (c : Chat) (held : HeldRow)
    → seq_of held < max_u64
    → IsChat c
    → WillBeGood (reads_out c) (apply_live c held)
unfolding apply_live pulls
apply_live-WillBeGood c held small k = elim (Bool-cases (leb (seq_of held) c.cursor)) [
  | inl old ↦ rw (old) (k, ground arith)
  | inr past ↦
      let room : (c.cursor == max_u64) ≡ false = ground (arith, k) in
      elim (Bool-cases (seq_of held == c.cursor + 1)) [
        | inl next ↦ rw (past, room, next) (forgotten_live-IsGood c held (ground arith) small k)
        | inr gap ↦ rw (past, room, gap) (catch_up-IsGood c k)
      ]
]
