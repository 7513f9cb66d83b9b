-- ===== src/Chat/Timeline/Invariant.antt =====
-- What every call on the chat keeps: the rows ascend by seq, each seq once, none past the cursor;
-- only seqs read past are asked again; and no read waits in the outbox.
use fermix_linux.Base.{
  ℕ, suc, ◌+◌, ◌-◌, ◌≢◌, ◌≤◌, ◌<◌, ◌≡◌, refl, sym, subst, Bool, true, false, not, ◌&&◌, ◌||◌, List,
  [], ◌∷◌, map, Option, none, some, is_some, arith, leb, all, Bool-cases, Option-cases, inl, inr,
  if◌then◌else◌, max_u64, saturating_add, first_seq, last_seq, range_seqs, retain, has_seq, ◌>>=◌,
}
use fermix_linux.Base.Ascending.{
  all_le, ascends, all_le-extend, all_le-retain, last_seq-none, last_seq-retain,
}
use fermix_linux.Chat.Wire.Requests.{ClientEvent, Cursor}
use fermix_linux.Chat.Timeline.State.{Chat, Step, max_read, HeldRow, Outgoing, Pull}
use fermix_linux.Chat.Timeline.Reads.{
  seq_of, send_pull, read_page, catch_up_cursor, catch_up, span, read_rows, send_waiting,
  read_again,
}

abbrev pub seqs_of : List HeldRow → List ℕ
seqs_of rows = map seq_of rows

-- A read asks for nothing past the cursor.
abbrev pub pull_le : ℕ → Option Pull → Bool
pull_le cursor none = true
pull_le cursor (some (Pull.page (Cursor.after_seq seq))) = leb seq cursor
pull_le cursor (some (Pull.page (Cursor.before_seq _))) = true
pull_le cursor (some (Pull.seqs seqs)) = all_le cursor seqs

abbrev pub is_pull : ClientEvent → Bool
is_pull (ClientEvent.history_pull _ _ _) = true
is_pull _ = false

abbrev pub no_pulls : List Outgoing → Bool
no_pulls pending = all (λ out. not (is_pull out.event)) pending

abbrev pub IsCore : List HeldRow → ℕ → List ℕ → List ℕ → Option Pull → List Outgoing → Type 0
IsCore rows cursor to_read before pull pending =
    (ascends (seqs_of rows) ≡ true)
    × (all_le cursor (seqs_of rows) ≡ true)
    × (cursor < max_u64)
    × (all_le cursor to_read ≡ true)
    × (all_le cursor before ≡ true)
    × (pull_le cursor pull ≡ true)
    × (no_pulls pending ≡ true)

abbrev pub IsChat : Chat → Type 0
IsChat c = IsCore c.rows c.cursor c.rows_to_read c.read_before_disconnect c.pull c.pending

-- How many reads are out.
abbrev pub reads_out : Chat → ℕ
reads_out c = if is_some c.pull then 1 else 0

-- How many reads are sent.
unfoldable pub pulls : List ClientEvent → ℕ
pulls [] = 0
pulls (e ∷ es) = let rest = pulls es in if is_pull e then suc rest else rest

-- A step that keeps the invariant, and whose reads join those that were out.
abbrev pub IsGood : ℕ → Step → Type 0
IsGood n (c, es) = IsChat c × (n + pulls es ≡ reads_out c)

-- It returns, and with such a step.
abbrev pub WillBeGood : ℕ → Option Step → Type 0
WillBeGood n none = ⊥
WillBeGood n (some step) = IsGood n step

pub send_pull-IsGood :
    (c : Chat) (pull : Pull) (cursor : Cursor) (limit : ℕ)
    → IsChat c
    → pull_le c.cursor (some pull) ≡ true
    → IsGood (reads_out c) (send_pull c pull cursor limit)
unfolding send_pull pulls
send_pull-IsGood c pull cursor limit k h = ground (arith, k, h)

pub read_page-IsGood :
    (c : Chat) (cursor : Cursor)
    → IsChat c
    → pull_le c.cursor (some (Pull.page cursor)) ≡ true
    → IsGood (reads_out c) (read_page c cursor)
unfolding read_page
read_page-IsGood c cursor k h = send_pull-IsGood c (Pull.page cursor) cursor 50 k h

pub catch_up-IsGood : (c : Chat) → IsChat c → IsGood (reads_out c) (catch_up c)
unfolding catch_up
catch_up-IsGood c k = read_page-IsGood c (catch_up_cursor c) k (ground (arith, k))

first_le :
    (c : Chat) (first : ℕ) → IsChat c → first_seq c.rows_to_read ≡ some first → first ≤ c.cursor
unfolding all_le
first_le c first k e = ground (arith, k, e)

-- The rows to read again are there, and span no more than a read may.
range_lem :
    (first : ℕ) (seqs : List ℕ)
    → first < max_u64
    → (last : ℕ)
    → last_seq (range_seqs first (saturating_add first (max_read - 1)) seqs) ≡ some last
    → span first last ≡ some (last - first + 1)
unfolding span
range_lem first seqs h last e = ground (
  arith,
  last_seq-retain (λ n. leb first n && leb n (saturating_add first (max_read - 1))) seqs last e,
)

range_some :
    (first : ℕ) (seqs : List ℕ)
    → first < max_u64
    → first_seq seqs ≡ some first
    → last_seq (range_seqs first (saturating_add first (max_read - 1)) seqs) ≢ none
unfolding retain
range_some first [] h e = cc
range_some first (x ∷ seqs) h e = λ f.
    ground (
      arith,
      e,
      last_seq-none (range_seqs first (saturating_add first (max_read - 1)) (x ∷ seqs)) f,
    )

-- The rows that one read takes, and the chat without them.
abbrev pub taken_from : Chat → ℕ → List ℕ
taken_from c first = range_seqs first (saturating_add first (max_read - 1)) c.rows_to_read

abbrev without : Chat → List ℕ → Chat
without c taken = record c { rows_to_read = retain (λ n. not (has_seq n taken)) c.rows_to_read }

read_rows-some :
    (c : Chat) (first last : ℕ)
    → last_seq (taken_from c first) ≡ some last
    → span first last ≡ some (last - first + 1)
    → read_rows c first
      ≡ some (
          send_pull
            (without c (taken_from c first))
            (Pull.seqs (taken_from c first))
            (Cursor.after_seq (first - 1))
            (last - first + 1))
unfolding read_rows
read_rows-some c first last e f = rw (read_rows, e, f, ◌>>=◌) refl

pub read_rows-WillBeGood :
    (c : Chat) (first : ℕ)
    → IsChat c
    → first_seq c.rows_to_read ≡ some first
    → WillBeGood (reads_out c) (read_rows c first)
read_rows-WillBeGood c first k e =
    let small : first < max_u64 = ground (arith, k, first_le c first k e) in
    elim (Option-cases (last_seq (taken_from c first))) [
      | inl f ↦ absurd (range_some first c.rows_to_read small e f)
      | inr (last, f) ↦
          subst (WillBeGood (reads_out c))
            (sym (read_rows-some c first last f (range_lem first c.rows_to_read small last f)))
            (send_pull-IsGood (without c (taken_from c first)) (Pull.seqs (taken_from c first))
              (Cursor.after_seq (first - 1)) (last - first + 1)
              (ground (
                arith,
                k,
                all_le-retain c.cursor (λ n. not (has_seq n (taken_from c first))) c.rows_to_read,
              ))
              (all_le-retain c.cursor
                (λ n. leb first n && leb n (saturating_add first (max_read - 1))) c.rows_to_read
                (ground (arith, k))))
    ]

pub send_waiting-WillBeGood : (c : Chat) → IsChat c → WillBeGood (reads_out c) (send_waiting c)
unfolding send_waiting pulls
send_waiting-WillBeGood c k = elim (Bool-cases (is_some c.pull || not c.connected)) [
  | inl busy ↦ rw (busy) (k, ground arith)
  | inr free ↦ elim (Option-cases c.older_waiting) [
    | inr (oldest, e) ↦
        rw (free, e)
          (read_page-IsGood (record c { older_waiting = none }) (Cursor.before_seq oldest) k refl)
    | inl e ↦ elim (Option-cases (first_seq c.rows_to_read)) [
      | inl f ↦ rw (free, e, f) (k, ground arith)
      | inr (first, f) ↦ rw (free, e, f) (read_rows-WillBeGood c first k f)
    ]
  ]
]

pub read_again-IsChat : (c : Chat) (seqs : List ℕ) → IsChat c → IsChat (read_again c seqs)
unfolding read_again
read_again-IsChat c seqs k =
    let stale = retain (λ n. has_seq n seqs) c.read_before_disconnect in
    ground (
      arith,
      k,
      all_le-retain c.cursor (λ n. has_seq n seqs) c.read_before_disconnect,
      all_le-retain c.cursor (λ n. not (has_seq n stale)) c.read_before_disconnect,
      all_le-extend c.cursor c.rows_to_read stale,
    )
