-- ===== src/Chat/Timeline/Sent.antt =====
-- A message, from the call that makes it to a later handshake
-- (desktop/core/src/chat_wire/timeline.rs).
use fermix_linux.Base.{
  ℕ, ◌+◌, ◌≡◌, ◌<◌, refl, sym, subst, ap, Bool, true, false, not, ◌&&◌, List, [], ◌∷◌, ◌++◌, Option,
  none, some, arith, leb, length, String, str_is_empty, trim, ◌⊎◌, Bool-cases, Option-cases, inl,
  inr, ◌>>=◌,
}
use fermix_linux.Base.Int.{ℤ}
use fermix_linux.Chat.Wire.Requests.{ClientEvent, msg_event, max_line_bytes}
use fermix_linux.Chat.Wire.Events.{ServerEvent, ServerError, Unreadable}
use fermix_linux.Chat.Timeline.State.{Chat, Outgoing, default, max_pending}
use fermix_linux.Chat.Timeline.Reads.{read_page, send_pull, catch_up, rows_on_screen, read_again}
use fermix_linux.Chat.Timeline.Turns.{
  start_turn, text_delta, end_turn, turn_failed, end_unread, text_done,
}
use fermix_linux.Chat.Timeline.Outbox.{is_too_long, enqueue, send_trimmed, send, settle}
use fermix_linux.Chat.Timeline.Cards.{
  hold_approval, approval_settled, expire_approvals, hold_proposal, expire_proposals,
  proposal_settled, refuse, refused, refuses, refuses_unread, answered_in, settled_of,
  daemon_reported, or_else, reveal, revealed,
}
use fermix_linux.Chat.Timeline.Receive.{
  renewed, negotiated, disconnected, where_named, failed_unread, UnreadKind, unread_kind,
  unreadable_as, unreadable, receive, events_of, refused_unread,
}
use fermix_linux.Chat.Timeline.Inputs.{Input, perform}
use fermix_linux.Chat.Timeline.Invariant.{IsChat, reads_out}
use fermix_linux.Chat.Timeline.Sending.{send-IsGood}
use fermix_linux.Chat.Timeline.Runs.{AreInputs, run, run-RunsWell, default-RunsWell, RunsWell}
use fermix_linux.Chat.Timeline.Waiting.{
  Leaves, Waits, Waits-filter, Waits-last, is_named, names, send_waiting-Leaves, catch_up-Leaves,
}
use fermix_linux.Chat.Timeline.Waiting.Calls.{
  send-Leaves, answer-Leaves, answer_proposal-Leaves, stop-Leaves, pull_older-Leaves,
  newest_seen-Leaves, apply_live-Leaves, merge-Leaves, updated-Leaves, page_unread-Leaves,
  negotiated-Leaves, first_unreadable-Leaves,
}

-- No input names the request in an answer.
unfoldable pub names_none : String → List Input → Bool
unfolding names
names_none id [] = true
names_none id (i ∷ inputs) = not (names id i) && names_none id inputs

module _ (out : Outgoing) where
  settled_of-Leaves :
      (c : Chat) (id : Option String)
      → is_named out.client_msg_id id ≡ false
      → Waits out c.pending
      → Waits out (settled_of c id).pending
  unfolding settle
  settled_of-Leaves c none h k = k
  settled_of-Leaves c (some id) h k = Waits-filter out id c.pending h k

  refuse-Leaves :
      (c : Chat) (id : Option String) (reported sentence : String)
      → is_named out.client_msg_id id ≡ false
      → Waits out c.pending
      → Waits out (refuse c id reported sentence).pending
  unfolding refuse
  refuse-Leaves c id reported sentence h k = elim (Option-cases (answered_in c id)) [
    | inl e ↦ rw (refuse, e) (settled_of-Leaves c id h k)
    | inr (card, e) ↦ rw (refuse, e) (settled_of-Leaves c id h k)
  ]

  refused-Leaves :
      (c : Chat) (e : ServerError)
      → is_named out.client_msg_id e.client_msg_id ≡ false
      → Waits out c.pending
      → Waits out (refused c e).pending
  unfolding refused
  refused-Leaves c e h k = elim (Bool-cases (refuses e)) [
    | inl yes_ ↦ rw (yes_) (
        refuse-Leaves c e.client_msg_id (daemon_reported e.reason)
          (or_else e.message (daemon_reported e.reason)) h k)
    | inr no_ ↦ rw (no_) k
  ]

  end_unread-same : (c : Chat) (turn : Option String) → (end_unread c turn).0.pending ≡ c.pending
  unfolding end_unread end_turn
  end_unread-same c none = refl
  end_unread-same c (some id) = refl

  failed_unread-same :
      (c : Chat) (turn : Option String) → (failed_unread c turn).pending ≡ c.pending
  unfolding failed_unread end_unread end_turn
  failed_unread-same c none = ground arith
  failed_unread-same c (some id) = ground arith

  where_named-Leaves :
      (named : Option String) (c : Chat) (change : String → Chat)
      → Waits out c.pending
      → ((id : String) → named ≡ some id → Waits out (change id).pending)
      → Waits out (where_named named c change).pending
  where_named-Leaves none c change k h = k
  where_named-Leaves (some id) c change k h = h id refl

  unreadable_as-Leaves :
      (kind : UnreadKind) (c : Chat) (u : Unreadable)
      → is_named out.client_msg_id u.client_msg_id ≡ false
      → Waits out c.pending
      → Leaves out (unreadable_as kind c u)
  unfolding unreadable_as Leaves proposal_settled approval_settled settle
  unreadable_as-Leaves UnreadKind.proposal_card c u h k = k
  unreadable_as-Leaves UnreadKind.approval_card c u h k = k
  unreadable_as-Leaves UnreadKind.proposal_end c u h k =
      where_named-Leaves u.card_id c _ k (λ id e. k)
  unreadable_as-Leaves UnreadKind.approval_end c u h k =
      where_named-Leaves u.card_id c _ k (λ id e. k)
  unreadable_as-Leaves UnreadKind.page_end c u h k = page_unread-Leaves out c k
  unreadable_as-Leaves UnreadKind.reply_end c u h k =
      catch_up-Leaves out (end_unread c u.turn_id).0
        (subst (Waits out) (sym (end_unread-same c u.turn_id)) k)
  unreadable_as-Leaves UnreadKind.live_row c u h k = catch_up-Leaves out c k
  unreadable_as-Leaves UnreadKind.turn_end c u h k =
      subst (Waits out) (sym (end_unread-same c u.turn_id)) k
  unreadable_as-Leaves UnreadKind.turn_failure c u h k =
      subst (Waits out) (sym (failed_unread-same c u.turn_id)) k
  unreadable_as-Leaves UnreadKind.acceptance c u h k =
      where_named-Leaves u.client_msg_id c _ k (λ id e.
        Waits-filter out id c.pending (subst (λ n. is_named out.client_msg_id n ≡ false) e h) k)
  unreadable_as-Leaves UnreadKind.refusal c u h k = elim (Bool-cases (refuses_unread u)) [
    | inl refusal ↦ rw (refusal) (refuse-Leaves c u.client_msg_id refused_unread refused_unread h k)
    | inr other ↦ rw (other) k
  ]
  unreadable_as-Leaves UnreadKind.ignored c u h k = k

  receive-Leaves :
      (c : Chat) (e : ServerEvent) (now : ℤ)
      → names out.client_msg_id (Input.event e now) ≡ false
      → Waits out c.pending
      → Leaves out (receive c e now)
  unfolding receive unreadable text_done end_turn text_delta start_turn turn_failed names
      hold_approval hold_proposal expire_proposals proposal_settled approval_settled settle Leaves
  receive-Leaves c (ServerEvent.accepted id _ _) now h k = Waits-filter out id c.pending h k
  receive-Leaves c (ServerEvent.text_done reply) now h k =
      apply_live-Leaves out (end_turn c reply.turn_id) _ k
  receive-Leaves c (ServerEvent.row r) now h k = apply_live-Leaves out c _ k
  receive-Leaves c (ServerEvent.row_updated seq) now h k = updated-Leaves out c seq k
  receive-Leaves c (ServerEvent.history_page page) now h k = merge-Leaves out c page k
  receive-Leaves c (ServerEvent.error e) now h k = refused-Leaves c e h k
  receive-Leaves c (ServerEvent.unreadable u) now h k =
      unreadable_as-Leaves (unread_kind u.kind) c u h k
  receive-Leaves c e now h k = k

  perform-Leaves :
      (encoded : ClientEvent → ℕ) (c : Chat) (i : Input)
      → names out.client_msg_id i ≡ false
      → Waits out c.pending
      → Leaves out (perform encoded c i)
  unfolding perform rows_on_screen expire_approvals expire_proposals reveal revealed disconnected
      read_again Leaves
  perform-Leaves encoded c (Input.negotiation seqs) h k = negotiated-Leaves out c seqs k
  perform-Leaves encoded c Input.disconnection h k = k
  perform-Leaves encoded c (Input.message text id) h k = send-Leaves out encoded c text id k
  perform-Leaves encoded c Input.cancellation h k = stop-Leaves out c k
  perform-Leaves encoded c (Input.approval_answer card approve id) h k =
      answer-Leaves out encoded c card approve id k
  perform-Leaves encoded c (Input.decision card word id) h k =
      answer_proposal-Leaves out encoded c card word id k
  perform-Leaves encoded c (Input.event e now) h k = receive-Leaves c e now h k
  perform-Leaves encoded c Input.top_reached h k = pull_older-Leaves out c k
  perform-Leaves encoded c Input.newest_shown h k = newest_seen-Leaves out c k
  perform-Leaves encoded c (Input.screen seqs) h k = send_waiting-Leaves out (read_again c seqs) k
  perform-Leaves encoded c (Input.approvals_due now) h k = k
  perform-Leaves encoded c (Input.proposals_due now) h k = k
  perform-Leaves encoded c (Input.asked_for id) h k = k
  perform-Leaves encoded c (Input.shown_to id) h k = k
  perform-Leaves encoded c (Input.warned_of kind) h k = first_unreadable-Leaves out c kind k

  run-Waits :
      (encoded : ClientEvent → ℕ) (c : Chat) (n : ℕ) (inputs : List Input)
      → names_none out.client_msg_id inputs ≡ true
      → Waits out c.pending
      → (d : Chat) (m : ℕ) → run encoded c n inputs ≡ some (d, m)
      → Waits out d.pending
  unfolding run names_none Leaves
  run-Waits encoded c n [] h k d m e =
      let f : c ≡ d = cc in subst (λ (c : Chat). Waits out c.pending) f k
  run-Waits encoded c n (i ∷ inputs) h k d m e = elim (Option-cases (perform encoded c i)) [
    | inl f ↦ let none_ : ◌≡◌ {A = Option (Chat × ℕ)} none (some (d, m)) = rw (f, ◌>>=◌) at e in cc
    | inr (step, f) ↦
        run-Waits encoded step.0 _ inputs (ground (arith, h))
          (subst (Leaves out) f (perform-Leaves encoded c i (ground (arith, h)) k)) d m
          (rw (f, ◌>>=◌) at e)
  ]

-- The request of a message.
abbrev message_out : String → String → Outgoing
message_out text id = record {
  client_msg_id = id;
  event = msg_event id text;
  text = text;
  approval_id = none;
  proposal_id = none;
}

send-Waits :
    (encoded : ClientEvent → ℕ) (c : Chat) (text id : String)
    → str_is_empty (trim text) ≡ false
    → length c.pending < max_pending
    → encoded (msg_event id (trim text)) + 1 < max_line_bytes
    → Waits (message_out (trim text) id) (send encoded c text id).0.pending
unfolding send send_trimmed enqueue
send-Waits encoded c text id e room small =
    let open_ : leb max_pending (length c.pending) ≡ false = ground (arith, room) in
    let short : is_too_long encoded (msg_event id (trim text)) ≡ false = ground (arith, small) in
    rw (e, open_, short) (Waits-last (message_out (trim text) id) c.pending)

-- An event among those sent.
unfoldable pub Sends : ClientEvent → List ClientEvent → Type 0
Sends event [] = ⊥
Sends event (x ∷ events) = (x ≡ event) ⊎ Sends event events

Waits-Sends :
    (out : Outgoing) (pending : List Outgoing)
    → Waits out pending
    → Sends out.event (events_of pending)
unfolding Waits Sends
Waits-Sends out [] k = elim k [ ]
Waits-Sends out (x ∷ pending) (inl e) = inl (ap (λ (x : Outgoing). x.event) e)
Waits-Sends out (x ∷ pending) (inr k) = inr (Waits-Sends out pending k)

catch_up-pending : (c : Chat) → (catch_up c).0.pending ≡ c.pending
unfolding catch_up read_page send_pull
catch_up-pending c = ground arith

negotiated_lem :
    (c : Chat) (seqs : List ℕ)
    → (negotiated c seqs).1 ≡ (catch_up (renewed c seqs)).1 ++ events_of c.pending
unfolding negotiated renewed read_again
negotiated_lem c seqs =
    ap (λ pending. (catch_up (renewed c seqs)).1 ++ events_of pending)
      (catch_up-pending (renewed c seqs))

-- What a handshake sends after a run, where the run is one and a request waits then.
pub SendsAt : ClientEvent → List ℕ → Option (Chat × ℕ) → Type 0
unfolding Sends
SendsAt event seqs none = ⊥
SendsAt event seqs (some (d, n)) =
    ((negotiated d seqs).1 ≡ (catch_up (renewed d seqs)).1 ++ events_of d.pending)
    × Sends event (events_of d.pending)

run-SendsAt :
    (encoded : ClientEvent → ℕ) (out : Outgoing) (c : Chat) (n : ℕ) (inputs : List Input)
    (seqs : List ℕ)
    → names_none out.client_msg_id inputs ≡ true
    → Waits out c.pending
    → RunsWell (run encoded c n inputs)
    → SendsAt out.event seqs (run encoded c n inputs)
unfolding SendsAt
run-SendsAt encoded out c n inputs seqs h k well = elim (Option-cases (run encoded c n inputs)) [
  | inl e ↦ absurd (subst RunsWell e well)
  | inr (last, e) ↦ subst (SendsAt out.event seqs) (sym e) (
    negotiated_lem last.0 seqs,
    Waits-Sends out last.0.pending (run-Waits out encoded c n inputs h k last.0 last.1 e),
  )
]

-- After any calls, where the daemon's seqs are below the greatest number of 64 bits: a message that
-- is not blank, that a line holds, and for which there is room waits, whatever calls come later,
-- connections lost and handshakes among them, for as long as no event that accepts or refuses it,
-- or that could not be read, names it: no call fails, and a handshake then sends it, after its read,
-- among the requests that wait, in their order.
pub run-sends :
    (encoded : ClientEvent → ℕ) (before later : List Input) (c : Chat) (n : ℕ) (text id : String)
    (seqs : List ℕ)
    → AreInputs before
    → run encoded default 0 before ≡ some (c, n)
    → str_is_empty (trim text) ≡ false
    → length c.pending < max_pending
    → encoded (msg_event id (trim text)) + 1 < max_line_bytes
    → AreInputs later
    → names_none id later ≡ true
    → SendsAt
        (msg_event id (trim text))
        seqs
        (run encoded (send encoded c text id).0 (reads_out (send encoded c text id).0) later)
run-sends encoded before later c n text id seqs v e blank room small w h =
    let k : IsChat c = (subst RunsWell e (default-RunsWell encoded before v)).0 in
    let sent = (send encoded c text id).0 in
    run-SendsAt encoded (message_out (trim text) id) sent (reads_out sent) later seqs h
      (send-Waits encoded c text id blank room small)
      (run-RunsWell encoded sent (reads_out sent) later w (send-IsGood encoded c text id k).0 refl)
