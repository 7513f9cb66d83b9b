-- ===== src/Chat/Timeline/Lookup.antt =====
-- The rows as a map from seqs to rows: what a page leaves at each seq.
use fermix_linux.Base.{
  ℕ, ◌≡◌, refl, ap, ◌∙◌, List, [], ◌∷◌, Option, none, some, arith, ◌==◌, ◌≤◌, true, if◌then◌else◌,
}
use fermix_linux.Chat.Wire.Rows.{Row}
use fermix_linux.Base.Ascending.{all_gt, ascends, ascends-insert}
use fermix_linux.Chat.Timeline.State.{HeldRow}
use fermix_linux.Chat.Timeline.Invariant.{seqs_of}
use fermix_linux.Chat.Timeline.Pages.{seqs_of-put_row}
use fermix_linux.Chat.Timeline.Reads.{seq_of}
use fermix_linux.Chat.Timeline.Rows.{put_row, put_rows}

-- The row that is held at a seq.
unfoldable pub held_at : ℕ → List HeldRow → Option HeldRow
held_at seq [] = none
held_at seq (held ∷ rows) =
    let rest = held_at seq rows in if seq == seq_of held then some held else rest

-- The last of a page's rows at a seq.
unfoldable pub latest : ℕ → List Row → Option Row
latest seq [] = none
latest seq (row ∷ rows) = elim (latest seq rows) [
  | some later ↦ some later
  | none ↦ if seq == row.server_seq then some row else none
]

-- A page's row over what was held at its seq: it keeps when it came, and by which turn.
unfoldable pub over : Option Row → Option HeldRow → Option HeldRow
over none held = held
over (some row) none = some (record { row = row; turn_id = none; arrived = none })
over (some row) (some held) = some (record held { row = row })

-- A row at a seq.
abbrev pub row_at : ℕ → Row → Option Row
row_at seq row = if seq == row.server_seq then some row else none

held_at-all_gt :
    (n seq : ℕ) (rows : List HeldRow)
    → all_gt n (seqs_of rows) ≡ true
    → seq ≤ n
    → held_at seq rows ≡ none
unfolding held_at all_gt
held_at-all_gt n seq [] h e = refl
held_at-all_gt n seq (held ∷ rows) h e = ground (arith, h, e, held_at-all_gt n seq rows)

held_at-put_row :
    (seq : ℕ) (row : Row) (rows : List HeldRow)
    → ascends (seqs_of rows) ≡ true
    → held_at seq (put_row row rows) ≡ over (row_at seq row) (held_at seq rows)
unfolding held_at put_row over ascends
held_at-put_row seq row [] h = ground arith
held_at-put_row seq row (held ∷ rows) h =
    ground (arith, h, held_at-put_row seq row rows, held_at-all_gt (seq_of held) seq rows)

over-over :
    (seq : ℕ) (row : Row) (rows : List Row) (held : Option HeldRow)
    → over (latest seq rows) (over (row_at seq row) held) ≡ over (latest seq (row ∷ rows)) held
unfolding over latest
over-over seq row rows none = ground arith
over-over seq row rows (some held) = ground arith

put_row-ascends :
    (row : Row) (rows : List HeldRow)
    → ascends (seqs_of rows) ≡ true
    → ascends (seqs_of (put_row row rows)) ≡ true
put_row-ascends row rows h =
    ap ascends (seqs_of-put_row row rows) ∙ ascends-insert row.server_seq (seqs_of rows) h

-- On rows that ascend by seq, each seq holds after a page the last of the page's rows at it, over
-- what was held there, and what was held where the page has none.
pub held_at-put_rows :
    (seq : ℕ) (held : List HeldRow) (rows : List Row)
    → ascends (seqs_of held) ≡ true
    → held_at seq (put_rows held rows) ≡ over (latest seq rows) (held_at seq held)
unfolding put_rows over latest
held_at-put_rows seq held [] h = refl
held_at-put_rows seq held (row ∷ rows) h =
    held_at-put_rows seq (put_row row held) rows (put_row-ascends row held h)
    ∙ ap (over (latest seq rows)) (held_at-put_row seq row held h)
    ∙ over-over seq row rows (held_at seq held)
