-- ===== src/Checklists/Mirror/Accepted.antt =====
-- What an acceptance leaves held (desktop/core/src/checklists/library.rs).
use fermix_linux.Base.{
  ◌≡◌, refl, sym, subst, true, false, not, ◌&&◌, Bool, List, [], ◌∷◌, Option, some, none, is_some,
  str_eq, str_eq_iff, if◌then◌else◌, String, Bool-cases, Option-cases, inl, inr,
}
use fermix_linux.Chat.Wire.Lists.{ListOp}
use fermix_linux.Checklists.Library.{Held, Library, Outgoing, state_mut}
use fermix_linux.Checklists.Library.Answers.{
  accepted, accepted_edit, accepted_out, create_accepted, creating_too, take_out,
}
use fermix_linux.Checklists.Mirror.{engine_hold, hold-engine_hold, is_create_of}

-- The request taken out is the first of the id.
take_out-some :
    (id : String) (unanswered : List Outgoing) (sent : Outgoing) (rest : List Outgoing)
    → take_out id unanswered ≡ some (sent, rest)
    → (str_eq sent.client_msg_id id ≡ true)
      × (is_create_of id unanswered ≡ not (is_some sent.list_id))
unfolding take_out is_create_of
take_out-some id [] sent rest h = cc
take_out-some id (first ∷ later) sent rest h = elim (Bool-cases (str_eq first.client_msg_id id)) [
  | inl e ↦
      let taken : ◌≡◌ {A = Option (Outgoing × List Outgoing)} (some (first, later))
          (some (sent, rest)) =
        rw (e) at h in
      let found : first ≡ sent = cc in
      subst
        (λ (s : Outgoing).
          (str_eq s.client_msg_id id ≡ true)
          × (is_create_of id (first ∷ later) ≡ not (is_some s.list_id)))
        found (e, rw (e) refl)
  | inr e ↦ elim (Option-cases (take_out id later)) [
    | inl f ↦
        let nothing : ◌≡◌ {A = Option (Outgoing × List Outgoing)} none (some (sent, rest)) =
          rw (e, f) at h in
        cc
    | inr (out, f) ↦
        let taken : ◌≡◌ {A = Option (Outgoing × List Outgoing)} (some (out.0, first ∷ out.1))
            (some (sent, rest)) =
          rw (e, f) at h in
        let found : out.0 ≡ sent = cc in
        let back = take_out-some id later out.0 out.1 f in
        subst
          (λ (s : Outgoing).
            (str_eq s.client_msg_id id ≡ true)
            × (is_create_of id (first ∷ later) ≡ not (is_some s.list_id)))
          found (back.0, rw (e) back.1)
  ]
]

take_out-none :
    (id : String) (unanswered : List Outgoing)
    → take_out id unanswered ≡ none
    → is_create_of id unanswered ≡ false
unfolding take_out is_create_of
take_out-none id [] h = refl
take_out-none id (first ∷ later) h = elim (Bool-cases (str_eq first.client_msg_id id)) [
  | inl e ↦
      let taken : ◌≡◌ {A = Option (Outgoing × List Outgoing)} (some (first, later)) none =
        rw (e) at h in
      cc
  | inr e ↦ elim (Option-cases (take_out id later)) [
    | inl f ↦ rw (e) (take_out-none id later f)
    | inr (out, f) ↦
        let taken : ◌≡◌ {A = Option (Outgoing × List Outgoing)} (some (out.0, first ∷ out.1)) none =
          rw (e, f) at h in
        cc
  ]
]

create_accepted-held :
    (lib : Library) (id : String) (op : ListOp) (duplicate : Bool)
    → (create_accepted lib id op duplicate).held
      ≡ (if not duplicate then engine_hold lib.held (Held.made id) else lib.held)
unfolding create_accepted
create_accepted-held lib id op true = refl
create_accepted-held lib id op false =
    hold-engine_hold (record lib { creating = creating_too id op lib.creating }) (Held.made id)
      false

accepted_edit-held :
    (lib : Library) (id : String) (duplicate : Bool) (sent : Outgoing)
    → sent.client_msg_id ≡ id
    → (accepted_edit lib id duplicate sent).held ≡ (
        if not (is_some sent.list_id) && not duplicate
        then engine_hold lib.held (Held.made id)
        else lib.held)
unfolding accepted_edit state_mut
accepted_edit-held lib id duplicate sent same = elim (Option-cases sent.list_id) [
  | inl e ↦ rw (e) (
      subst
        (λ n.
          (create_accepted lib n sent.op duplicate).held
          ≡ (if not duplicate then engine_hold lib.held (Held.made id) else lib.held))
        (sym same) (create_accepted-held lib id sent.op duplicate))
  | inr (list, e) ↦ rw (e) refl
]

pub accepted-held :
    (lib : Library) (id : String) (duplicate : Bool)
    → (accepted lib id duplicate).0.held ≡ (
        if is_create_of id lib.unanswered && not duplicate
        then engine_hold lib.held (Held.made id)
        else lib.held)
unfolding accepted accepted_out
accepted-held lib id duplicate = elim (Option-cases (take_out id lib.unanswered)) [
  | inl e ↦ rw (e, take_out-none id lib.unanswered e) refl
  | inr (out, e) ↦
      let found = take_out-some id lib.unanswered out.0 out.1 e in
      rw (e, found.1)
        (accepted_edit-held (record lib { unanswered = out.1 }) id duplicate out.0
          ((str_eq_iff out.0.client_msg_id id).0 found.0))
]
