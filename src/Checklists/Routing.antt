-- ===== src/Checklists/Routing.antt =====
-- Which of the daemon's events are the lists' (desktop/core/src/checklists/routing.rs).
use fermix_linux.Base.{
  Bool, false, not, ◌&&◌, List, [], ◌∷◌, Option, none, some, is_some, String, str_eq, str_mem,
  if◌then◌else◌,
}
use fermix_linux.Chat.Wire.Requests.{ClientEvent}
use fermix_linux.Chat.Wire.Events.{ServerEvent, Unreadable}
use fermix_linux.Chat.Timeline.Receive.{refused_unread}
use fermix_linux.Checklists.Library.{Library}
use fermix_linux.Checklists.Library.Answers.{
  received_index, received_list, accepted, refusal, refused,
}

abbrev pub keeps_the_edit : List String
keeps_the_edit = "primary_unreachable" ∷ []

-- `then(Vec::new)`
abbrev pub then_nothing : Library × Bool → Library × Option (List ClientEvent)
then_nothing step = (step.0, if step.1 then some [] else none)

-- `unread_answer`, past the request that it names.
unfoldable pub unread_named : Library → Unreadable → String → Library × Option (List ClientEvent)
unfolding refused accepted
unread_named lib u id =
    if str_eq u.kind "error" && not (is_some u.ref)
    then refused lib id refused_unread
    else if str_eq u.kind "accepted"
    then then_nothing (accepted lib id false)
    else (lib, none)

unfoldable pub unread_answer : Library → Unreadable → Library × Option (List ClientEvent)
unfolding unread_named
unread_answer lib u = elim u.client_msg_id [ none ↦ (lib, none) | some id ↦ unread_named lib u id ]

unfoldable pub lists_event :
    (String → String) → Library → ServerEvent → Library × Option (List ClientEvent)
unfolding received_index received_list accepted refusal unread_answer str_mem
lists_event to_lowercase lib (ServerEvent.checklists index) =
    let step = received_index to_lowercase lib index in (step.0, some step.1)
lists_event to_lowercase lib (ServerEvent.checklist list made) =
    (received_list lib list made, some [])
lists_event to_lowercase lib (ServerEvent.accepted client_msg_id duplicate server_seq) =
    then_nothing (accepted lib client_msg_id duplicate)
lists_event to_lowercase lib (ServerEvent.error e) =
    if str_mem e.reason keeps_the_edit then (lib, none) else refusal lib e
lists_event to_lowercase lib (ServerEvent.unreadable unread) = unread_answer lib unread
lists_event to_lowercase lib _ = (lib, none)
