-- ===== src/Chat/Timeline/Sending.antt =====
-- What the owner's own calls keep of the chat.
use fermix_linux.Base.{
  ℕ, ◌+◌, ◌≡◌, refl, Bool, true, false, List, [], ◌∷◌, ◌++◌, Option, none, some, arith, leb, length,
  any, find, String, str_eq, str_is_empty, trim, Bool-cases, Option-cases, inl, inr,
}
use fermix_linux.Base.Ascending.{all_le, all_le-extend}
use fermix_linux.Chat.Wire.Cards.{Decision}
use fermix_linux.Chat.Wire.Requests.{ClientEvent}
use fermix_linux.Chat.Timeline.State.{Chat, Outgoing, max_pending}
use fermix_linux.Chat.Timeline.Reads.{
  send_pull, read_page, catch_up, read_again, pull_older_from, oldest_seq, pull_older, newest_seen,
}
use fermix_linux.Chat.Timeline.Turns.{stop, request_of}
use fermix_linux.Chat.Timeline.Outbox.{
  is_too_long, enqueue, or_nothing, send_trimmed, send, answering, answer_with, answer, is_asked,
  answered_card, proposal_out, answer_proposal,
}
use fermix_linux.Chat.Timeline.Receive.{
  cleared, renewed, events_of, negotiated, seqs_out, disconnected,
}
use fermix_linux.Chat.Timeline.Invariant.{
  seqs_of, is_pull, no_pulls, IsChat, reads_out, pulls, IsGood, catch_up-IsGood, read_again-IsChat,
}

no_pulls-append :
    (pending : List Outgoing) (out : Outgoing)
    → no_pulls pending ≡ true
    → is_pull out.event ≡ false
    → no_pulls (pending ++ out ∷ []) ≡ true
no_pulls-append [] out h e = ground (arith, e)
no_pulls-append (x ∷ pending) out h e = ground (arith, h, e, no_pulls-append pending out)

-- A request in the outbox is no read.
enqueue-IsGood :
    (encoded : ClientEvent → ℕ) (c : Chat) (out : Outgoing)
    → is_pull out.event ≡ false
    → IsChat c
    → IsGood (reads_out c) (or_nothing (enqueue encoded c out))
unfolding enqueue pulls
enqueue-IsGood encoded c out e k = elim (Bool-cases (is_too_long encoded out.event)) [
  | inl long ↦ rw (long) (k, ground arith)
  | inr short ↦ elim (Bool-cases c.connected) [
    | inl up ↦
        rw (short, up)
          ((k.0, k.1, k.2, k.3, k.4, k.5, no_pulls-append c.pending out k.6 e), ground (arith, e))
    | inr down ↦
        rw (short, down)
          ((k.0, k.1, k.2, k.3, k.4, k.5, no_pulls-append c.pending out k.6 e), ground arith)
  ]
]

pub send-IsGood :
    (encoded : ClientEvent → ℕ) (c : Chat) (text id : String)
    → IsChat c
    → IsGood (reads_out c) (send encoded c text id)
unfolding send send_trimmed pulls
send-IsGood encoded c text id k = elim (Bool-cases (str_is_empty (trim text))) [
  | inl blank ↦ rw (blank) (k, ground arith)
  | inr some_text ↦ elim (Bool-cases (leb max_pending (length c.pending))) [
    | inl full ↦ rw (some_text, full) (k, ground arith)
    | inr room ↦
        rw (some_text, room) (enqueue-IsGood encoded (record c { last_error = none }) _ refl k)
  ]
]

answer_with-IsGood :
    (encoded : ClientEvent → ℕ) (c : Chat) (card : String)
    (routed : Option (String × Option String))
    → (id : String) → IsChat c
    → IsGood (reads_out c) (answer_with encoded c card routed id)
unfolding answer_with pulls
answer_with-IsGood encoded c card none id k = (k, ground arith)
answer_with-IsGood encoded c card (some (name, args)) id k = enqueue-IsGood encoded c _ refl k

pub answer-IsGood :
    (encoded : ClientEvent → ℕ) (c : Chat) (card : String) (approve : Bool) (id : String)
    → IsChat c
    → IsGood (reads_out c) (answer encoded c card approve id)
unfolding answer pulls
answer-IsGood encoded c card approve id k = elim (Bool-cases (answering c card)) [
  | inl sent ↦ rw (sent) (k, ground arith)
  | inr open_ ↦
      elim (Option-cases (find (λ held. str_eq held.approval.approval_id card) c.approvals)) [
        | inl e ↦ rw (open_, e) (k, ground arith)
        | inr (held, e) ↦ rw (open_, e) (answer_with-IsGood encoded c card _ id k)
      ]
]

answered_card-IsGood :
    (n : ℕ) (card : String) (word : Decision) (queued : Chat × Option (List ClientEvent))
    → IsGood n (or_nothing queued)
    → IsGood n (answered_card card word queued)
unfolding answered_card
answered_card-IsGood n card word (c, none) g = g
answered_card-IsGood n card word (c, some sent) g = g

pub answer_proposal-IsGood :
    (encoded : ClientEvent → ℕ) (c : Chat) (card : String) (word : Decision) (id : String)
    → IsChat c
    → IsGood (reads_out c) (answer_proposal encoded c card word id)
unfolding answer_proposal pulls
answer_proposal-IsGood encoded c card word id k =
    elim (Bool-cases (any (is_asked card word) c.proposals)) [
      | inr closed ↦ rw (closed) (k, ground arith)
      | inl asked ↦ rw (asked) (
          answered_card-IsGood (reads_out c) card word
            (enqueue encoded c (proposal_out id card word))
            (enqueue-IsGood encoded c (proposal_out id card word) refl k))
    ]

pub stop-IsGood : (c : Chat) → IsChat c → IsGood (reads_out c) (stop c)
unfolding stop pulls
stop-IsGood c k = elim (Option-cases (request_of c.turn)) [
  | inl e ↦ rw (stop, e) (k, ground arith)
  | inr (id, e) ↦ elim (Bool-cases c.connected) [
    | inl up ↦ rw (stop, e, up) (k, ground arith)
    | inr down ↦ rw (stop, e, down) (k, ground arith)
  ]
]

pull_older_from-IsGood :
    (c : Chat) (oldest : ℕ) → IsChat c → IsGood (reads_out c) (pull_older_from c oldest)
unfolding pull_older_from pulls read_page send_pull
pull_older_from-IsGood c oldest k = ground (arith, k)

pub pull_older-IsGood : (c : Chat) → IsChat c → IsGood (reads_out c) (pull_older c)
unfolding pull_older pulls
pull_older-IsGood c k = elim (Option-cases (oldest_seq c.rows)) [
  | inl e ↦ rw (pull_older, e) (k, ground arith)
  | inr (oldest, e) ↦ rw (pull_older, e) (pull_older_from-IsGood c oldest k)
]

pub newest_seen-IsGood : (c : Chat) → IsChat c → IsGood (reads_out c) (newest_seen c)
unfolding newest_seen pulls
newest_seen-IsGood c k = ground (arith, k)

pulls-append : (es fs : List ClientEvent) → pulls (es ++ fs) ≡ pulls es + pulls fs
unfolding pulls
pulls-append [] fs = ground arith
pulls-append (e ∷ es) fs = ground (arith, pulls-append es fs)

pulls-events_of :
    (pending : List Outgoing) → no_pulls pending ≡ true → pulls (events_of pending) ≡ 0
unfolding pulls
pulls-events_of [] h = refl
pulls-events_of (out ∷ pending) h = ground (arith, h, pulls-events_of pending)

renewed-IsChat : (c : Chat) (seqs : List ℕ) → IsChat c → IsChat (renewed c seqs)
unfolding renewed
renewed-IsChat c seqs k = read_again-IsChat (cleared c) seqs k

pub negotiated-IsGood :
    (c : Chat) (seqs : List ℕ) → IsChat c → IsGood (reads_out c) (negotiated c seqs)
unfolding negotiated renewed read_again
negotiated-IsGood c seqs k =
    let again : IsChat (renewed c seqs) = renewed-IsChat c seqs k in
    let read : IsGood (reads_out c) (catch_up (renewed c seqs)) =
      catch_up-IsGood (renewed c seqs) again in
    (
      read.0,
      ground (
        arith,
        read.1,
        pulls-append (catch_up (renewed c seqs)).1
            (events_of (catch_up (renewed c seqs)).0.pending),
        pulls-events_of (catch_up (renewed c seqs)).0.pending read.0.6,
      ),
    )

pub disconnected-IsChat : (c : Chat) → IsChat c → IsChat (disconnected c)
unfolding disconnected all_le
disconnected-IsChat c k = ground (
  arith,
  k,
  all_le-extend c.cursor [] (seqs_of c.rows),
  all_le-extend c.cursor c.rows_to_read (seqs_out c.pull),
)
