-- ===== src/Chat/Timeline/Cards.antt =====
-- The cards of the chat, and the requests that the daemon refuses
-- (desktop/core/src/chat_wire/timeline.rs).
use fermix_linux.Base.{
  ℕ, Bool, false, not, ◌&&◌, List, [], ◌∷◌, ◌++◌, map, Option, none, some, is_some, String, ◌+++◌,
  str_eq, leb, if◌then◌else◌, any, filter, find, update_first, ◌>>=◌,
}
use fermix_linux.Base.Int.{ℤ, le, max_i64, saturating_add}
use fermix_linux.Chat.Clock.{unix_seconds}
use fermix_linux.Chat.Wire.Cards.{Approval, Proposal, Decision}
use fermix_linux.Chat.Wire.Requests.{ClientEvent}
use fermix_linux.Chat.Wire.Events.{ServerError, ServerEvent, Unreadable}
use fermix_linux.Chat.Unshown.{Asks, resolved}
use fermix_linux.Chat.Timeline.State.{
  Chat, Outgoing, HeldApproval, HeldProposal, Standing, asks_now, is_resolved, is_refused,
}
use fermix_linux.Chat.Timeline.Outbox.{is_id, settle, stand}

-- `i64::try_from(ttl).unwrap_or(i64::MAX)`
abbrev pub as_i64 : ℕ → ℕ
as_i64 n = if leb n max_i64 then n else max_i64

abbrev pub is_approval : String → HeldApproval → Bool
is_approval id held = str_eq held.approval.approval_id id

unfoldable pub hold_approval : Chat → Approval → ℤ → Chat
hold_approval chat card now =
    let held : HeldApproval = record {
      approval = card;
      expires_at = saturating_add now (as_i64 card.ttl_s);
    } in
    record chat {
      approvals =
          if any (is_approval card.approval_id) chat.approvals
          then update_first (is_approval card.approval_id) (λ _. held) chat.approvals
          else chat.approvals ++ held ∷ [];
    }

-- `expires_at > now`
unfoldable pub expire_approvals : Chat → ℤ → Chat
expire_approvals chat now = record chat {
  approvals = filter (λ held. not (le held.expires_at now)) chat.approvals;
}

unfoldable pub approval_settled : Chat → String → Chat
approval_settled chat id = record chat {
  approvals = filter (λ held. not (is_approval id held)) chat.approvals;
  unshown = resolved chat.unshown Asks.approval id;
}

abbrev pub is_card : String → HeldProposal → Bool
is_card id held = str_eq held.proposal.proposal_id id

-- `expires.is_some_and(|expires| expires <= now)`
abbrev pub is_past : Option ℤ → ℤ → Bool
is_past none now = false
is_past (some expires) now = le expires now

unfoldable pub expire_card : ℤ → HeldProposal → HeldProposal
expire_card now held =
    if asks_now held && is_past held.expires now
    then record held { standing = Standing.expired }
    else held

unfoldable pub expire_proposals : Chat → ℤ → Chat
unfolding expire_card
expire_proposals chat now = record chat { proposals = map (expire_card now) chat.proposals }

-- `iter().min()` of the times of the cards that ask
unfoldable pub soonest : List HeldProposal → Option ℤ
soonest [] = none
soonest (held ∷ cards) =
    let rest = soonest cards in
    if asks_now held
    then elim held.expires [
      | none ↦ rest
      | some at ↦ elim rest [
        | none ↦ some at
        | some later ↦ some (if le at later then at else later)
      ]
    ]
    else rest

unfoldable pub next_expiry : Chat → Option ℤ
unfolding soonest
next_expiry chat = soonest chat.proposals

-- The decision that an event carries for a proposal.
abbrev pub decision_of : String → ClientEvent → Option Decision
decision_of id (ClientEvent.proposal_answer _ _ proposal_id decision) =
    if str_eq proposal_id id then some decision else none
decision_of id _ = none

unfoldable pub answer_waiting : List Outgoing → String → Option Decision
answer_waiting [] id = none
answer_waiting (out ∷ pending) id =
    let rest = answer_waiting pending id in
    elim (decision_of id out.event) [ some decision ↦ some decision | none ↦ rest ]

-- Where a new card stands.
unfoldable pub standing_anew : Chat → String → Standing
unfolding answer_waiting
standing_anew chat id = elim (answer_waiting chat.pending id) [
  | some decision ↦ Standing.answered decision
  | none ↦ Standing.opened
]

-- A card over the one of its id.
abbrev pub replaced : Proposal → Standing → HeldProposal → HeldProposal
replaced card anew held = record held {
  proposal = card;
  created = unix_seconds card.created_at;
  expires = unix_seconds card.expires_at;
  standing = if is_refused held.standing then anew else held.standing;
}

unfoldable pub put_card : Proposal → Standing → List HeldProposal → List HeldProposal
put_card card anew cards =
    if any (is_card card.proposal_id) cards
    then update_first (is_card card.proposal_id) (replaced card anew) cards
    else cards
      ++ record {
        proposal = card;
        standing = anew;
        created = unix_seconds card.created_at;
        expires = unix_seconds card.expires_at;
      }
        ∷ []

unfoldable pub hold_proposal : Chat → Proposal → ℤ → Chat
unfolding expire_proposals put_card standing_anew
hold_proposal chat card now =
    expire_proposals
      (record chat {
        proposals = put_card card (standing_anew chat card.proposal_id) chat.proposals;
      })
      now

unfoldable pub proposal_settled : Chat → String → String → Option String → Chat
unfolding stand
proposal_settled chat id sentence result_text = record chat {
  unshown = resolved chat.unshown Asks.proposal id;
  proposals = stand (is_card id) (Standing.resolved sentence result_text) chat.proposals;
}

abbrev pub daemon_reported : String → String
daemon_reported reason = "The daemon reported: " +++ reason

-- The proposal whose answer the request carries.
unfoldable pub answered_by : List Outgoing → String → Option String
answered_by pending id =
    find (λ out. str_eq out.client_msg_id id) pending >>= λ out. out.proposal_id

abbrev pub answered_in : Chat → Option String → Option String
answered_in chat client_msg_id = client_msg_id >>= answered_by chat.pending

abbrev pub settled_of : Chat → Option String → Chat
settled_of chat none = chat
settled_of chat (some id) = settle chat id

-- A card of the id that is not a record yet.
abbrev pub is_unresolved : String → HeldProposal → Bool
is_unresolved id held = is_card id held && not (is_resolved held.standing)

unfoldable pub refuse : Chat → Option String → String → String → Chat
unfolding settle stand answered_by
refuse chat client_msg_id reported sentence =
    let rest = settled_of chat client_msg_id in
    elim (answered_in chat client_msg_id) [
      | none ↦ record rest { last_error = some reported }
      | some proposal_id ↦ record rest {
        proposals = stand (is_unresolved proposal_id) (Standing.refused sentence) chat.proposals;
      }
    ]

unfoldable pub refuses : ServerError → Bool
refuses e = not (is_some e.ref) && not (is_some e.attach_id)

unfoldable pub refuses_unread : Unreadable → Bool
refuses_unread u = str_eq u.kind "error" && not (is_some u.ref)

abbrev pub or_else : Option String → String → String
or_else none other = other
or_else (some s) other = s

unfoldable pub refused : Chat → ServerError → Chat
unfolding refuse refuses
refused chat e =
    if refuses e
    then refuse chat e.client_msg_id (daemon_reported e.reason)
        (or_else e.message (daemon_reported e.reason))
    else chat

-- The card of an answer that still waits, where the card is a record.
unfoldable pub resolved_answer : Chat → String → Option String
unfolding answered_by
resolved_answer chat id = answered_by chat.pending id >>= λ card.
    find (is_card card) chat.proposals >>= λ held.
    if is_resolved held.standing then some card else none

-- The request that a refusal names.
abbrev pub refused_request : ServerEvent → Option String
refused_request (ServerEvent.error e) = if refuses e then e.client_msg_id else none
refused_request (ServerEvent.unreadable u) = if refuses_unread u then u.client_msg_id else none
refused_request _ = none

unfoldable pub late_refusal : Chat → ServerEvent → Option String
unfolding resolved_answer
late_refusal chat event = refused_request event >>= resolved_answer chat

unfoldable pub reveal : Chat → String → Chat
reveal chat proposal_id = record chat { reveal = some proposal_id }

unfoldable pub revealed : Chat → String → Chat
revealed chat proposal_id = record chat {
  reveal = if is_id chat.reveal proposal_id then none else chat.reveal;
}
