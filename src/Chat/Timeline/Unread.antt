-- ===== src/Chat/Timeline/Unread.antt =====
-- What an event that cannot be read keeps of the chat, and then any event.
use fermix_linux.Base.{
  ℕ, ◌≤◌, ◌<◌, ◌≡◌, refl, true, List, [], ◌∷◌, Option, none, some, arith, ◌==◌, any, String,
  Bool-cases, inl, inr, max_u64, insert_seq,
}
use fermix_linux.Base.Int.{ℤ}
use fermix_linux.Base.Ascending.{all_le, all_le-insert}
use fermix_linux.Chat.Wire.Events.{ServerEvent, Unreadable}
use fermix_linux.Chat.Timeline.State.{Chat, HeldRow}
use fermix_linux.Chat.Timeline.Reads.{seq_of, catch_up, updated}
use fermix_linux.Chat.Timeline.Turns.{
  start_turn, text_delta, text_done, turn_failed, end_turn, end_unread,
}
use fermix_linux.Chat.Timeline.Outbox.{settle}
use fermix_linux.Chat.Timeline.Cards.{
  hold_approval, approval_settled, hold_proposal, expire_proposals, proposal_settled,
  refuses_unread,
}
use fermix_linux.Chat.Timeline.Receive.{
  quiet, failed_unread, UnreadKind, unread_kind, unreadable_as, unreadable, receive, settled_unread,
  refused_unread,
}
use fermix_linux.Chat.Timeline.Invariant.{
  seqs_of, IsChat, reads_out, pulls, IsGood, WillBeGood, catch_up-IsGood, send_waiting-WillBeGood,
}
use fermix_linux.Chat.Timeline.Pages.{apply_live-WillBeGood}
use fermix_linux.Chat.Timeline.Merging.{IsPage, merge-WillBeGood}
use fermix_linux.Chat.Timeline.Steps.{
  quiet-WillBeGood, settle-WillBeGood, refuse-WillBeGood, refused-WillBeGood,
  page_unread-WillBeGood, named-WillBeGood, is_page, answers_read, still_out,
}

proposal_settled-WillBeGood :
    (c : Chat) (id sentence : String) (result : Option String)
    → IsChat c
    → WillBeGood (reads_out c) (quiet (proposal_settled c id sentence result))
unfolding proposal_settled
proposal_settled-WillBeGood c id sentence result k =
    quiet-WillBeGood (reads_out c) (proposal_settled c id sentence result) k refl

approval_settled-WillBeGood :
    (c : Chat) (id : String) → IsChat c → WillBeGood (reads_out c) (quiet (approval_settled c id))
unfolding approval_settled
approval_settled-WillBeGood c id k = quiet-WillBeGood (reads_out c) (approval_settled c id) k refl

has_all_le :
    (n seq : ℕ) (rows : List HeldRow)
    → all_le n (seqs_of rows) ≡ true
    → any (λ held. seq_of held == seq) rows ≡ true
    → seq ≤ n
unfolding all_le
has_all_le n seq [] h e = cc
has_all_le n seq (held ∷ rows) h e = ground (arith, h, e, has_all_le n seq rows)

updated-WillBeGood : (c : Chat) (seq : ℕ) → IsChat c → WillBeGood (reads_out c) (updated c seq)
unfolding updated
updated-WillBeGood c seq k = elim (Bool-cases (any (λ held. seq_of held == seq) c.rows)) [
  | inl held ↦ rw (held) (
      send_waiting-WillBeGood (record c { rows_to_read = insert_seq seq c.rows_to_read })
        (ground (
          arith,
          k,
          all_le-insert c.cursor seq c.rows_to_read,
          has_all_le c.cursor seq c.rows k.1 held,
        )))
  | inr gone ↦ rw (gone) (quiet-WillBeGood (reads_out c) c k refl)
]

end_unread-IsGood :
    (c : Chat) (turn : Option String) → IsChat c → IsGood (reads_out c) ((end_unread c turn).0, [])
unfolding end_unread pulls
end_unread-IsGood c none k = (k, ground arith)
end_unread-IsGood c (some id) k = (k, ground arith)

failed_unread-IsGood :
    (c : Chat) (turn : Option String) → IsChat c → IsGood (reads_out c) (failed_unread c turn, [])
unfolding failed_unread end_unread pulls
failed_unread-IsGood c none k = ground (arith, k)
failed_unread-IsGood c (some id) k = ground (arith, k)

end_unread-catch_up :
    (c : Chat) (turn : Option String)
    → IsChat c
    → IsGood (reads_out c) (catch_up (end_unread c turn).0)
unfolding end_unread
end_unread-catch_up c none k = catch_up-IsGood (record c { turn = none }) k
end_unread-catch_up c (some id) k = catch_up-IsGood (end_turn c id) k

pub unreadable_as-WillBeGood :
    (kind : UnreadKind) (c : Chat) (u : Unreadable)
    → IsChat c
    → WillBeGood (still_out c (is_page kind)) (unreadable_as kind c u)
unfolding unreadable_as
unreadable_as-WillBeGood UnreadKind.proposal_card c u k = quiet-WillBeGood (reads_out c) c k refl
unreadable_as-WillBeGood UnreadKind.approval_card c u k = quiet-WillBeGood (reads_out c) c k refl
unreadable_as-WillBeGood UnreadKind.proposal_end c u k =
    named-WillBeGood (reads_out c) u.card_id c (λ id. proposal_settled c id settled_unread none)
      (quiet-WillBeGood (reads_out c) c k refl)
      (λ id. proposal_settled-WillBeGood c id settled_unread none k)
unreadable_as-WillBeGood UnreadKind.approval_end c u k =
    named-WillBeGood (reads_out c) u.card_id c (λ id. approval_settled c id)
      (quiet-WillBeGood (reads_out c) c k refl) (λ id. approval_settled-WillBeGood c id k)
unreadable_as-WillBeGood UnreadKind.page_end c u k = page_unread-WillBeGood c k
unreadable_as-WillBeGood UnreadKind.reply_end c u k = end_unread-catch_up c u.turn_id k
unreadable_as-WillBeGood UnreadKind.live_row c u k = catch_up-IsGood c k
unreadable_as-WillBeGood UnreadKind.turn_end c u k = end_unread-IsGood c u.turn_id k
unreadable_as-WillBeGood UnreadKind.turn_failure c u k = failed_unread-IsGood c u.turn_id k
unreadable_as-WillBeGood UnreadKind.acceptance c u k =
    named-WillBeGood (reads_out c) u.client_msg_id c (λ id. settle c id)
      (quiet-WillBeGood (reads_out c) c k refl) (λ id. settle-WillBeGood c id k)
unreadable_as-WillBeGood UnreadKind.refusal c u k = elim (Bool-cases (refuses_unread u)) [
  | inl refusal ↦ rw (refusal) (refuse-WillBeGood c u.client_msg_id refused_unread refused_unread k)
  | inr other ↦ rw (other) (quiet-WillBeGood (reads_out c) c k refl)
]
unreadable_as-WillBeGood UnreadKind.ignored c u k = quiet-WillBeGood (reads_out c) c k refl

-- The seqs that an event brings are below the greatest number of 64 bits.
unfoldable pub IsEvent : ServerEvent → Type 0
IsEvent (ServerEvent.row r) = r.server_seq < max_u64
IsEvent (ServerEvent.text_done reply) = reply.server_seq < max_u64
IsEvent (ServerEvent.history_page page) = IsPage page
IsEvent _ = Unit {0}

pub receive-WillBeGood :
    (c : Chat) (e : ServerEvent) (now : ℤ)
    → IsEvent e
    → IsChat c
    → WillBeGood (still_out c (answers_read e)) (receive c e now)
unfolding receive unreadable IsEvent text_done end_turn text_delta start_turn turn_failed
    hold_approval hold_proposal expire_proposals pulls
receive-WillBeGood c (ServerEvent.accepted id _ _) now v k = settle-WillBeGood c id k
receive-WillBeGood c (ServerEvent.text_done reply) now v k =
    apply_live-WillBeGood (end_turn c reply.turn_id) _ v k
receive-WillBeGood c (ServerEvent.row r) now v k = apply_live-WillBeGood c _ v k
receive-WillBeGood c (ServerEvent.row_updated seq) now v k = updated-WillBeGood c seq k
receive-WillBeGood c (ServerEvent.history_page page) now v k = merge-WillBeGood c page v k
receive-WillBeGood c (ServerEvent.error e) now v k = refused-WillBeGood c e k
receive-WillBeGood c (ServerEvent.unreadable u) now v k =
    unreadable_as-WillBeGood (unread_kind u.kind) c u k
receive-WillBeGood c (ServerEvent.approval_resolved id _) now v k =
    approval_settled-WillBeGood c id k
receive-WillBeGood c (ServerEvent.proposal_resolved r) now v k =
    proposal_settled-WillBeGood c r.proposal_id r.sentence r.result_text k
receive-WillBeGood c e now v k = (k, ground arith)
