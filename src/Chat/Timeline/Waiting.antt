-- ===== src/Chat/Timeline/Waiting.antt =====
-- The requests in the outbox past the reads (desktop/core/src/chat_wire/timeline.rs).
pub mod Calls
use Prim.{tt}
use fermix_linux.Base.{
  ℕ, ◌+◌, ◌≡◌, ◌==◌, refl, sym, subst, Bool, false, not, ◌||◌, ◌&&◌, List, [], ◌∷◌, ◌++◌, Option,
  none, some, is_some, arith, leb, ltb, length, any, find, filter, String, str_eq, str_is_empty,
  trim, ◌⊎◌, Bool-cases, Option-cases, inl, inr, ◌>>=◌, first_seq, insert_seq, last_seq, max_u64,
  range_seqs, saturating_add, ◌-◌,
}
use fermix_linux.Chat.Wire.Cards.{Decision}
use fermix_linux.Chat.Wire.Requests.{ClientEvent, Cursor}
use fermix_linux.Chat.Wire.Rows.{Page}
use fermix_linux.Chat.Wire.Events.{ServerEvent}
use fermix_linux.Chat.Timeline.State.{Chat, Step, HeldRow, Outgoing, Pull, max_pending, max_read}
use fermix_linux.Chat.Timeline.Reads.{
  seq_of, send_pull, read_page, catch_up, span, read_rows, send_waiting, read_again, oldest_seq,
  pull_older_from, pull_older, newest_seen, updated,
}
use fermix_linux.Chat.Timeline.Rows.{
  forget_oldest, apply_live, merged, merge, is_stalled, asked_from,
}
use fermix_linux.Chat.Timeline.Turns.{request_of, stop}
use fermix_linux.Chat.Timeline.Outbox.{
  is_too_long, enqueue, or_nothing, send_trimmed, send, answering, answer_with, answer, is_asked,
  answered_card, proposal_out, answer_proposal,
}
use fermix_linux.Chat.Timeline.Receive.{
  renewed, negotiated, first_unreadable, unread, page_unread, history_unreadable,
}
use fermix_linux.Chat.Timeline.Inputs.{Input}

-- A request of the outbox.
unfoldable pub Waits : Outgoing → List Outgoing → Type 0
Waits out [] = ⊥
Waits out (x ∷ pending) = (x ≡ out) ⊎ Waits out pending

pub Waits-last : (out : Outgoing) (pending : List Outgoing) → Waits out (pending ++ out ∷ [])
unfolding Waits
Waits-last out [] = inl refl
Waits-last out (x ∷ pending) = inr (Waits-last out pending)

pub Waits-append :
    (out x : Outgoing) (pending : List Outgoing) → Waits out pending → Waits out (pending ++ x ∷ [])
unfolding Waits
Waits-append out x [] k = elim k [ ]
Waits-append out x (y ∷ pending) (inl e) = inl e
Waits-append out x (y ∷ pending) (inr k) = inr (Waits-append out x pending k)

-- What settles another request leaves this one.
pub Waits-filter :
    (out : Outgoing) (id : String) (pending : List Outgoing)
    → str_eq out.client_msg_id id ≡ false
    → Waits out pending
    → Waits out (filter (λ x. not (str_eq x.client_msg_id id)) pending)
unfolding Waits filter
Waits-filter out id [] e k = elim k [ ]
Waits-filter out id (x ∷ pending) e (inl same) =
    let other : str_eq x.client_msg_id id ≡ false =
      subst (λ (o : Outgoing). str_eq o.client_msg_id id ≡ false) (sym same) e in
    rw (other) (inl same)
Waits-filter out id (x ∷ pending) e (inr k) = elim (Bool-cases (str_eq x.client_msg_id id)) [
  | inl gone ↦ rw (gone) (Waits-filter out id pending e k)
  | inr kept ↦ rw (kept) (inr (Waits-filter out id pending e k))
]

abbrev pub is_named : String → Option String → Bool
is_named id none = false
is_named id (some other) = str_eq id other

-- The input names the request in an answer: it is accepted, or refused, or an event that names it
-- could not be read.
unfoldable pub names : String → Input → Bool
names id (Input.event (ServerEvent.accepted other _ _) _) = str_eq id other
names id (Input.event (ServerEvent.error e) _) = is_named id e.client_msg_id
names id (Input.event (ServerEvent.unreadable u) _) = is_named id u.client_msg_id
names id _ = false

module _ (out : Outgoing) where
  -- The request waits in the chat of the step, where there is one.
  unfoldable pub Leaves : Option Step → Type 0
  Leaves none = Unit {0}
  Leaves (some step) = Waits out step.0.pending

  -- A chat that holds the same outbox.
  pub same :
      (c : Chat) (pending : List Outgoing)
      → c.pending ≡ pending
      → Waits out pending
      → Waits out c.pending
  same c pending e k = subst (Waits out) (sym e) k

  send_pull-Leaves :
      (c : Chat) (pull : Pull) (cursor : Cursor) (limit : ℕ)
      → Waits out c.pending
      → Waits out (send_pull c pull cursor limit).0.pending
  unfolding send_pull
  send_pull-Leaves c pull cursor limit k =
      same (send_pull c pull cursor limit).0 c.pending (ground arith) k

  pub read_page-Leaves :
      (c : Chat) (cursor : Cursor) → Waits out c.pending → Waits out (read_page c cursor).0.pending
  unfolding read_page
  read_page-Leaves c cursor k = send_pull-Leaves c (Pull.page cursor) cursor _ k

  pub catch_up-Leaves : (c : Chat) → Waits out c.pending → Waits out (catch_up c).0.pending
  unfolding catch_up
  catch_up-Leaves c k = read_page-Leaves c _ k

  read_rows-Leaves : (c : Chat) (first : ℕ) → Waits out c.pending → Leaves (read_rows c first)
  unfolding read_rows Leaves
  read_rows-Leaves c first k =
      elim (Option-cases
        (last_seq (range_seqs first (saturating_add first (max_read - 1)) c.rows_to_read))) [
          | inl e ↦ rw (e, ◌>>=◌) tt
          | inr (last, e) ↦ elim (Option-cases (span first last)) [
            | inl f ↦ rw (e, ◌>>=◌, f) tt
            | inr (limit, f) ↦ rw (e, ◌>>=◌, f) (send_pull-Leaves _ _ _ _ k)
          ]
        ]

  pub send_waiting-Leaves : (c : Chat) → Waits out c.pending → Leaves (send_waiting c)
  unfolding send_waiting Leaves
  send_waiting-Leaves c k = elim (Bool-cases (is_some c.pull || not c.connected)) [
    | inl busy ↦ rw (busy) k
    | inr free ↦ elim (Option-cases c.older_waiting) [
      | inr (oldest, e) ↦ rw (free, e) (read_page-Leaves (record c { older_waiting = none }) _ k)
      | inl e ↦ elim (Option-cases (first_seq c.rows_to_read)) [
        | inl f ↦ rw (free, e, f) k
        | inr (first, f) ↦ rw (free, e, f) (read_rows-Leaves c first k)
      ]
    ]
  ]
