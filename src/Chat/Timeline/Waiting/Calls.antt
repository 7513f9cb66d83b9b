-- ===== src/Chat/Timeline/Waiting/Calls.antt =====
-- The requests in the outbox past the owner's calls and the daemon's rows
-- (desktop/core/src/chat_wire/timeline.rs).
use Prim.{tt}
use fermix_linux.Base.{
  ℕ, ◌+◌, ◌≡◌, ◌==◌, refl, Bool, not, ◌&&◌, List, [], ◌∷◌, ◌++◌, Option, none, some, arith, leb,
  ltb, length, any, find, String, str_eq, str_is_empty, trim, Bool-cases, Option-cases, inl, inr,
  insert_seq, max_u64,
}
use fermix_linux.Chat.Wire.Cards.{Decision}
use fermix_linux.Chat.Wire.Requests.{ClientEvent, Cursor}
use fermix_linux.Chat.Wire.Rows.{Page}
use fermix_linux.Chat.Timeline.State.{Chat, HeldRow, Outgoing, max_pending}
use fermix_linux.Chat.Timeline.Reads.{
  seq_of, send_pull, read_page, read_again, oldest_seq, pull_older_from, pull_older, newest_seen,
  updated,
}
use fermix_linux.Chat.Timeline.Rows.{
  forget_oldest, apply_live, merged, merge, is_stalled, asked_from,
}
use fermix_linux.Chat.Timeline.Turns.{request_of, stop}
use fermix_linux.Chat.Timeline.Outbox.{
  is_too_long, enqueue, or_nothing, send_trimmed, send, answering, answer_with, answer, is_asked,
  answered_card, proposal_out, answer_proposal,
}
use fermix_linux.Chat.Timeline.Receive.{
  renewed, negotiated, first_unreadable, unread, page_unread, history_unreadable,
}
use fermix_linux.Chat.Timeline.Waiting.{
  Leaves, Waits, Waits-append, same, read_page-Leaves, catch_up-Leaves, send_waiting-Leaves,
}

module _ (out : Outgoing) where
  enqueue-Leaves :
      (encoded : ClientEvent → ℕ) (c : Chat) (o : Outgoing)
      → Waits out c.pending
      → Waits out (enqueue encoded c o).0.pending
  unfolding enqueue
  enqueue-Leaves encoded c o k = elim (Bool-cases (is_too_long encoded o.event)) [
    | inl long ↦ rw (long) k
    | inr short ↦ rw (short) (Waits-append out o c.pending k)
  ]

  or_nothing-Leaves :
      (queued : Chat × Option (List ClientEvent))
      → Waits out queued.0.pending
      → Waits out (or_nothing queued).0.pending
  or_nothing-Leaves (c, none) k = k
  or_nothing-Leaves (c, some sent) k = k

  pub send-Leaves :
      (encoded : ClientEvent → ℕ) (c : Chat) (text id : String)
      → Waits out c.pending
      → Waits out (send encoded c text id).0.pending
  unfolding send send_trimmed
  send-Leaves encoded c text id k = elim (Bool-cases (str_is_empty (trim text))) [
    | inl blank ↦ rw (blank) k
    | inr some_text ↦ elim (Bool-cases (leb max_pending (length c.pending))) [
      | inl full ↦ rw (some_text, full) k
      | inr room ↦
          rw (some_text, room)
            (or_nothing-Leaves (enqueue encoded (record c { last_error = none }) _)
              (enqueue-Leaves encoded (record c { last_error = none }) _ k))
    ]
  ]

  answer_with-Leaves :
      (encoded : ClientEvent → ℕ) (c : Chat) (card : String)
      (routed : Option (String × Option String)) (id : String)
      → Waits out c.pending
      → Waits out (answer_with encoded c card routed id).0.pending
  unfolding answer_with
  answer_with-Leaves encoded c card none id k = k
  answer_with-Leaves encoded c card (some (name, args)) id k =
      or_nothing-Leaves (enqueue encoded c _) (enqueue-Leaves encoded c _ k)

  pub answer-Leaves :
      (encoded : ClientEvent → ℕ) (c : Chat) (card : String) (approve : Bool) (id : String)
      → Waits out c.pending
      → Waits out (answer encoded c card approve id).0.pending
  unfolding answer
  answer-Leaves encoded c card approve id k = elim (Bool-cases (answering c card)) [
    | inl sent ↦ rw (sent) k
    | inr open_ ↦
        elim (Option-cases (find (λ held. str_eq held.approval.approval_id card) c.approvals)) [
          | inl e ↦ rw (open_, e) k
          | inr (held, e) ↦ rw (open_, e) (answer_with-Leaves encoded c card _ id k)
        ]
  ]

  answered_card-Leaves :
      (card : String) (word : Decision) (queued : Chat × Option (List ClientEvent))
      → Waits out queued.0.pending
      → Waits out (answered_card card word queued).0.pending
  unfolding answered_card
  answered_card-Leaves card word (c, none) k = k
  answered_card-Leaves card word (c, some sent) k = k

  pub answer_proposal-Leaves :
      (encoded : ClientEvent → ℕ) (c : Chat) (card : String) (word : Decision) (id : String)
      → Waits out c.pending
      → Waits out (answer_proposal encoded c card word id).0.pending
  unfolding answer_proposal
  answer_proposal-Leaves encoded c card word id k =
      elim (Bool-cases (any (is_asked card word) c.proposals)) [
        | inr closed ↦ rw (closed) k
        | inl asked ↦ rw (asked) (
            answered_card-Leaves card word (enqueue encoded c (proposal_out id card word))
              (enqueue-Leaves encoded c (proposal_out id card word) k))
      ]

  pub stop-Leaves : (c : Chat) → Waits out c.pending → Waits out (stop c).0.pending
  unfolding stop
  stop-Leaves c k = elim (Option-cases (request_of c.turn)) [
    | inl e ↦ rw (stop, e) k
    | inr (id, e) ↦ elim (Bool-cases c.connected) [
      | inl up ↦ rw (stop, e, up) k
      | inr down ↦ rw (stop, e, down) k
    ]
  ]

  pull_older_from-same : (c : Chat) (oldest : ℕ) → (pull_older_from c oldest).0.pending ≡ c.pending
  unfolding pull_older_from read_page send_pull
  pull_older_from-same c oldest = ground arith

  pub pull_older-Leaves : (c : Chat) → Waits out c.pending → Waits out (pull_older c).0.pending
  unfolding pull_older
  pull_older-Leaves c k = elim (Option-cases (oldest_seq c.rows)) [
    | inl e ↦ rw (pull_older, e) k
    | inr (oldest, e) ↦
        rw (pull_older, e)
          (same out (pull_older_from c oldest).0 c.pending (pull_older_from-same c oldest) k)
  ]

  pub newest_seen-Leaves : (c : Chat) → Waits out c.pending → Waits out (newest_seen c).0.pending
  unfolding newest_seen
  newest_seen-Leaves c k = same out (newest_seen c).0 c.pending (ground arith) k

  forget-Leaves :
      (c : Chat) (rows : List HeldRow)
      → c.rows ≡ rows
      → Waits out c.pending
      → Waits out (forget_oldest c).pending
  unfolding forget_oldest
  forget-Leaves c [] e k = same out (forget_oldest c) c.pending (ground (arith, e)) k
  forget-Leaves c (oldest ∷ rows) e k = same out (forget_oldest c) c.pending (ground (arith, e)) k

  pub apply_live-Leaves :
      (c : Chat) (held : HeldRow) → Waits out c.pending → Leaves out (apply_live c held)
  unfolding apply_live Leaves
  apply_live-Leaves c held k = elim (Bool-cases (leb (seq_of held) c.cursor)) [
    | inl old ↦ rw (old) k
    | inr past ↦ elim (Bool-cases (c.cursor == max_u64)) [
      | inl full ↦ rw (past, full) tt
      | inr room ↦ elim (Bool-cases (seq_of held == c.cursor + 1)) [
        | inl next ↦
            rw (past, room, next)
              (forget-Leaves (record c { rows = c.rows ++ held ∷ []; cursor = seq_of held }) _ refl
                k)
        | inr gap ↦ rw (past, room, gap) (catch_up-Leaves out c k)
      ]
    ]
  ]

  pub merge-Leaves : (c : Chat) (page : Page) → Waits out c.pending → Leaves out (merge c page)
  unfolding merge merged Leaves
  merge-Leaves c page k =
      let later = merged c page in
      elim (Bool-cases
        (ltb later.cursor later.head && not (is_stalled (asked_from c.pull) later.cursor))) [
          | inl on ↦ rw (on) (read_page-Leaves out later (Cursor.after_seq later.cursor) k)
          | inr ended ↦ rw (ended) (send_waiting-Leaves out later k)
        ]

  pub updated-Leaves : (c : Chat) (seq : ℕ) → Waits out c.pending → Leaves out (updated c seq)
  unfolding updated Leaves
  updated-Leaves c seq k = elim (Bool-cases (any (λ held. seq_of held == seq) c.rows)) [
    | inl held ↦
        rw (held)
          (send_waiting-Leaves out (record c { rows_to_read = insert_seq seq c.rows_to_read }) k)
    | inr gone ↦ rw (gone) k
  ]

  pub page_unread-Leaves : (c : Chat) → Waits out c.pending → Leaves out (page_unread c)
  unfolding page_unread unread Leaves
  page_unread-Leaves c k = elim (Bool-cases (history_unreadable (unread c))) [
    | inl many ↦ rw (many) k
    | inr few ↦ rw (few) (send_waiting-Leaves out (unread c) k)
  ]

  pub negotiated-Leaves :
      (c : Chat) (seqs : List ℕ) → Waits out c.pending → Waits out (negotiated c seqs).0.pending
  unfolding negotiated renewed read_again
  negotiated-Leaves c seqs k = catch_up-Leaves out (renewed c seqs) k

  pub first_unreadable-Leaves :
      (c : Chat) (kind : String)
      → Waits out c.pending
      → Waits out (first_unreadable c kind).0.pending
  unfolding first_unreadable
  first_unreadable-Leaves c kind k = same out (first_unreadable c kind).0 c.pending (ground arith) k
