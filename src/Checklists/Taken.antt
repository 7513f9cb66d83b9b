-- ===== src/Checklists/Taken.antt =====
-- What the daemon sends changes the library by one of four operations
-- (desktop/core/src/checklists/routing.rs).
use fermix_linux.Base.{
  Bool, false, List, arith, String, str_mem, Bool-cases, Option-cases, inl, inr,
}
use fermix_linux.Chat.Wire.Lists.{ListEntry, OwnerList}
use fermix_linux.Chat.Wire.Events.{ServerEvent, ServerError, Unreadable}
use fermix_linux.Chat.Timeline.Cards.{daemon_reported}
use fermix_linux.Chat.Timeline.Receive.{refused_unread}
use fermix_linux.Checklists.Draft.{or_else}
use fermix_linux.Checklists.Library.{Library}
use fermix_linux.Checklists.Library.Answers.{
  accepted, received_index, received_list, refusal, refused,
}
use fermix_linux.Checklists.Routing.{keeps_the_edit, lists_event, unread_answer, unread_named}

-- What holds of a library holds once an event came, where it does after an index, a list, an
-- `accepted` and a refusal.
module _ {ℓ} (P : Library → Type ℓ) (lower : String → String) (lib : Library) (k : P lib)
    (at_index : (lists : List ListEntry) → P (received_index lower lib lists).0)
    (at_list : (list : OwnerList) (made : List (String × String)) → P (received_list lib list made))
    (at_accepted : (id : String) (duplicate : Bool) → P (accepted lib id duplicate).0)
    (at_refused : (id sentence : String) → P (refused lib id sentence).0) where
  refusal_lem : (e : ServerError) → P (refusal lib e).0
  unfolding refusal
  refusal_lem e = elim (Option-cases e.client_msg_id) [
    | inl h ↦ ground (arith, h, k)
    | inr (id, h) ↦ ground (arith, h, at_refused id (or_else e.message (daemon_reported e.reason)))
  ]

  unread_named_lem : (u : Unreadable) (id : String) → P (unread_named lib u id).0
  unfolding unread_named
  unread_named_lem u id = ground (arith, k, at_refused id refused_unread, at_accepted id false)

  unread_answer_lem : (u : Unreadable) → P (unread_answer lib u).0
  unfolding unread_answer
  unread_answer_lem u = elim (Option-cases u.client_msg_id) [
    | inl h ↦ ground (arith, h, k)
    | inr (id, h) ↦ ground (arith, h, unread_named_lem u id)
  ]

  error_lem : (e : ServerError) → P (lists_event lower lib (ServerEvent.error e)).0
  unfolding lists_event
  error_lem e = elim (Bool-cases (str_mem e.reason keeps_the_edit)) [
    | inl h ↦ ground (arith, h, k)
    | inr h ↦ ground (arith, h, refusal_lem e)
  ]

  pub lists_event_lem : (e : ServerEvent) → P (lists_event lower lib e).0
  unfolding lists_event
  lists_event_lem (ServerEvent.checklists lists) = at_index lists
  lists_event_lem (ServerEvent.checklist list made) = at_list list made
  lists_event_lem (ServerEvent.accepted id duplicate seq) = at_accepted id duplicate
  lists_event_lem (ServerEvent.error e) = error_lem e
  lists_event_lem (ServerEvent.unreadable u) = unread_answer_lem u
  lists_event_lem _ = k
