-- ===== src/Checklists/Bounds/Answers.antt =====
-- What the daemon sends keeps the library's bounds (desktop/core/src/checklists/library.rs).
use fermix_linux.Base.{
  ℕ, ◌-◌, ◌≤◌, ◌≡◌, Bool, false, not, List, [], ◌∷◌, Option, none, some, String, str_mem, arith,
  length, length-append, length-drop, filter, Option-cases, inl, inr,
}
use fermix_linux.Chat.Wire.Lists.{ListEntry}
use fermix_linux.Checklists.Index.{titled}
use fermix_linux.Checklists.Library.{Library, Held, Outgoing, holds, is_made, max_waiting}
use fermix_linux.Checklists.Library.Answers.{
  accepted, accepted_edit, accepted_out, again, create_accepted, creating_too, find_create,
  find_creates, found, found_all, indexed, is_named, let_go, pull_waiting, pulled_again,
  received_index, refused, refused_edit, refused_list, refused_out, remove_made, renewed, since,
  take_out,
}
use fermix_linux.Checklists.Bounds.{
  IsBounded, draw-IsBounded, hold-IsBounded, length-filter, length-update_first, pull-IsBounded,
  pull_all-IsBounded,
}

again_le : (ids : List String) (held : List Held) → length (again ids held) ≤ length held
unfolding again
again_le ids [] = ground arith
again_le ids (Held.one id ∷ held) = ground (arith, again_le ids held)
again_le ids (Held.made id ∷ held) = ground (arith, again_le ids held)

pub renewed-IsBounded :
    (lib : Library) (version : ℕ) → IsBounded lib → IsBounded (renewed lib version)
unfolding renewed since
renewed-IsBounded lib version k =
    let drawn = filter (λ entry. not (holds lib entry.0)) lib.waiting in
    let again_first = again lib.with_removed lib.held in
    ground (
      arith,
      k,
      again_le lib.with_removed lib.held,
      length-append again_first (since lib),
      length-drop (length drawn - (max_waiting - length again_first)) drawn,
    )

remove_made_le :
    (client : String) (held : List Held) → length (remove_made client held) ≤ length held
unfolding remove_made
remove_made_le client [] = ground arith
remove_made_le client (old ∷ held) = ground (arith, remove_made_le client held)

found-IsBounded :
    (lib : Library) (client id : String) → IsBounded lib → IsBounded (found lib client id)
unfolding found
found-IsBounded lib client id k = ground (
  arith,
  k,
  remove_made_le client lib.held,
  length-update_first (is_made client) (λ old. Held.one id) lib.held,
)

find_create-IsBounded :
    (lib : Library) (letting_go : Bool) (client : String) (named : Option ListEntry)
    → IsBounded lib
    → IsBounded (find_create lib letting_go client named).0
unfolding find_create let_go
find_create-IsBounded lib letting_go client none k =
    ground (arith, k, length-filter (λ old. not (is_made client old)) lib.held)
find_create-IsBounded lib letting_go client (some entry) k =
    draw-IsBounded (found lib client entry.list_id) entry.list_id false
      (found-IsBounded lib client entry.list_id k)

find_creates-IsBounded :
    (lower : String → String) (lib : Library) (letting_go : Bool) (creates : List (String × String))
    → IsBounded lib
    → IsBounded (find_creates lower lib letting_go creates).0
unfolding find_creates
find_creates-IsBounded lower lib letting_go [] k = k
find_creates-IsBounded lower lib letting_go ((client, title) ∷ creates) k =
    let named = titled lower lib.index title in
    find_creates-IsBounded lower (find_create lib letting_go client named).0 letting_go creates
      (find_create-IsBounded lib letting_go client named k)

pull_waiting-IsBounded : (lib : Library) → IsBounded lib → IsBounded (pull_waiting lib).0
unfolding pull_waiting
pull_waiting-IsBounded lib k =
    pull_all-IsBounded
      (record lib { waiting = filter (λ entry. not (is_named lib entry)) lib.waiting })
      (filter (is_named lib) lib.waiting)
      (ground (arith, k, length-filter (λ entry. not (is_named lib entry)) lib.waiting))

pub received_index-IsBounded :
    (lower : String → String) (lib : Library) (lists : List ListEntry)
    → IsBounded lib
    → IsBounded (received_index lower lib lists).0
unfolding received_index
received_index-IsBounded lower lib lists k =
    pull_waiting-IsBounded
      (find_creates lower (indexed lib lists) (not lib.index_current) lib.creating).0
      (find_creates-IsBounded lower (indexed lib lists) (not lib.index_current) lib.creating k)

pub found_all-IsBounded :
    (lib : Library) (made : List (String × String)) → IsBounded lib → IsBounded (found_all lib made)
unfolding found_all
found_all-IsBounded lib [] k = k
found_all-IsBounded lib ((client, id) ∷ made) k =
    found_all-IsBounded (found lib client id) made (found-IsBounded lib client id k)

pub take_out_le :
    (client : String) (unanswered : List Outgoing) (out : Outgoing × List Outgoing)
    → take_out client unanswered ≡ some out
    → length out.1 ≤ length unanswered
unfolding take_out
take_out_le client [] out h = ground (arith, h)
take_out_le client (sent ∷ rest) out h = elim (Option-cases (take_out client rest)) [
  | inl e ↦ ground (arith, e, h)
  | inr (later, e) ↦ ground (arith, e, h, take_out_le client rest later e)
]

accepted_edit-IsBounded :
    (lib : Library) (client : String) (duplicate : Bool) (sent : Outgoing)
    → IsBounded lib
    → IsBounded (accepted_edit lib client duplicate sent)
unfolding accepted_edit create_accepted
accepted_edit-IsBounded lib client duplicate sent k =
    let known = record lib { creating = creating_too sent.client_msg_id sent.op lib.creating } in
    elim (Option-cases sent.list_id) [
      | inl e ↦ ground (arith, e, k, hold-IsBounded known (Held.made sent.client_msg_id) false k)
      | inr (id, e) ↦ ground (arith, e, k)
    ]

pub accepted-IsBounded :
    (lib : Library) (client : String) (duplicate : Bool)
    → IsBounded lib
    → IsBounded (accepted lib client duplicate).0
unfolding accepted accepted_out
accepted-IsBounded lib client duplicate k = elim (Option-cases (take_out client lib.unanswered)) [
  | inl e ↦ ground (arith, e, k)
  | inr (out, e) ↦ ground (
    arith,
    e,
    accepted_edit-IsBounded (record lib { unanswered = out.1 }) client duplicate out.0
        (ground (arith, k, take_out_le client lib.unanswered out e)),
  )
]

pulled_again-IsBounded :
    (lib : Library) (id : String) → IsBounded lib → IsBounded (pulled_again lib id).0
unfolding pulled_again
pulled_again-IsBounded lib id k =
    ground (arith, k, pull-IsBounded lib id (str_mem id lib.with_removed) k)

refused_edit-IsBounded :
    (lib : Library) (client sentence : String) (sent : Outgoing)
    → IsBounded lib
    → IsBounded (refused_edit lib client sentence sent).0
unfolding refused_edit refused_list
refused_edit-IsBounded lib client sentence sent k = elim (Option-cases sent.list_id) [
  | inl e ↦ ground (arith, e, k)
  | inr (id, e) ↦ ground (
    arith,
    e,
    pulled_again-IsBounded (refused_list lib id client sent.op sentence) id (ground (arith, k)),
  )
]

pub refused-IsBounded :
    (lib : Library) (client sentence : String)
    → IsBounded lib
    → IsBounded (refused lib client sentence).0
unfolding refused refused_out
refused-IsBounded lib client sentence k = elim (Option-cases (take_out client lib.unanswered)) [
  | inl e ↦ ground (arith, e, k)
  | inr (out, e) ↦ ground (
    arith,
    e,
    refused_edit-IsBounded (record lib { unanswered = out.1 }) client sentence out.0
        (ground (arith, k, take_out_le client lib.unanswered out e)),
  )
]
