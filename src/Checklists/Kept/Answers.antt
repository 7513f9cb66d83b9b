-- ===== src/Checklists/Kept/Answers.antt =====
-- What the daemon sends keeps the edits drawn among those that wait
-- (desktop/core/src/checklists/library.rs).
use fermix_linux.Base.{
  ◌≡◌, sym, Bool, List, none, some, String, arith, ◌∙◌, inl, inr, filter, Option-cases,
}
use mathlib.Core.Option.{some_inj}
use fermix_linux.Chat.Wire.Lists.{ListEntry, OwnerList}
use fermix_linux.Checklists.State.{
  ListState, is_left, accepted as accepted_state, dropped, received as received_state,
  refused as refused_state,
}
use fermix_linux.Checklists.Library.{
  Library, Outgoing, hold, or_default, put_state, state_in, state_mut,
}
use fermix_linux.Checklists.Library.Answers.{
  accepted, accepted_edit, accepted_out, create_accepted, found_all, is_creating, pulled_again,
  received_index, received_list, refused, refused_edit, refused_list, refused_out, take_out,
}
use fermix_linux.Checklists.Frames.{found_all-IsSame, pulled_again-IsSame, received_index-IsSame}
use fermix_linux.Checklists.Kept.{AreKept, AreSent, IsKept, pending_in}
use fermix_linux.Checklists.Kept.Lists.{AreSent-filter}
use fermix_linux.Checklists.Kept.Out.{AreSent-accepted, AreSent-dropped, AreSent-still}
use fermix_linux.Checklists.Kept.Steps.{IsSame-IsKept, put_state-AreKept}

received-AreSent :
    (list_id : String) (sents : List Outgoing) (s : ListState) (list : OwnerList)
    (made : List (String × String))
    → AreSent list_id sents s.pending
    → AreSent list_id sents (received_state s list made).0.pending
unfolding received_state
received-AreSent list_id sents s list made k =
    ground (arith, k, AreSent-filter list_id sents (is_left made) s.pending k)

pub received_list-IsKept :
    (lib : Library) (list : OwnerList) (made : List (String × String))
    → IsKept lib
    → IsKept (received_list lib list made)
unfolding received_list state_mut AreKept
received_list-IsKept lib list made k =
    let named = found_all lib (filter (is_creating lib) made) in
    let kept : IsKept named =
      IsSame-IsKept lib named (found_all-IsSame lib (filter (is_creating lib) made)) k in
    let s = or_default (state_in list.list_id named.states) in
    put_state-AreKept list.list_id (received_state s list made).0 named.unanswered named.states
      (received-AreSent list.list_id named.unanswered s list made (kept list.list_id))
      (λ l other. kept l)

-- Where one list's state takes the answer to an edit of that list.
answered-AreKept :
    (lib : Library) (client list_id : String) (s : ListState) (out : Outgoing × List Outgoing)
    → take_out client lib.unanswered ≡ some out
    → out.0.list_id ≡ some list_id
    → IsKept lib
    → AreSent list_id out.1 s.pending
    → AreKept out.1 (put_state list_id s lib.states)
unfolding AreKept
answered-AreKept lib client list_id s out h named k here =
    put_state-AreKept list_id s out.1 lib.states here (λ l other.
      AreSent-still l client (pending_in l lib.states) lib.unanswered out h
        (inr (λ p. other (some_inj.0 (sym p ∙ named)))) (k l))

-- A create's answer changes no list.
create-AreKept :
    (lib : Library) (client : String) (out : Outgoing × List Outgoing)
    → take_out client lib.unanswered ≡ some out
    → out.0.list_id ≡ none
    → IsKept lib
    → AreKept out.1 lib.states
unfolding AreKept
create-AreKept lib client out h named k = λ l.
    AreSent-still l client (pending_in l lib.states) lib.unanswered out h
      (inr (λ p. ground (arith, p, named))) (k l)

pub accepted-IsKept :
    (lib : Library) (client : String) (duplicate : Bool)
    → IsKept lib
    → IsKept (accepted lib client duplicate).0
unfolding accepted accepted_out accepted_edit create_accepted state_mut accepted_state hold AreKept
accepted-IsKept lib client duplicate k = elim (Option-cases (take_out client lib.unanswered)) [
  | inl e ↦ ground (arith, e, k)
  | inr (out, e) ↦ elim (Option-cases out.0.list_id) [
    | inl n ↦ ground (arith, e, n, create-AreKept lib client out e n k)
    | inr (id, n) ↦
        let s = or_default (state_in id lib.states) in
        ground (
          arith,
          e,
          n,
          answered-AreKept lib client id (accepted_state s client) out e n k
              (AreSent-accepted id client s.pending lib.unanswered out e (k id)),
        )
  ]
]

refused_list-IsKept :
    (lib : Library) (client list_id sentence : String) (out : Outgoing × List Outgoing)
    → take_out client lib.unanswered ≡ some out
    → out.0.list_id ≡ some list_id
    → IsKept lib
    → IsKept (refused_list (record lib { unanswered = out.1 }) list_id client out.0.op sentence)
unfolding refused_list state_mut dropped refused_state AreKept
refused_list-IsKept lib client list_id sentence out h named k =
    let s = or_default (state_in list_id lib.states) in
    let left = AreSent-dropped list_id client s.pending lib.unanswered out h (k list_id) in
    ground (
      arith,
      answered-AreKept lib client list_id (dropped s client) out h named k left,
      answered-AreKept lib client list_id (refused_state s client sentence) out h named k left,
    )

pub refused-IsKept :
    (lib : Library) (client sentence : String) → IsKept lib → IsKept (refused lib client sentence).0
unfolding refused refused_out refused_edit AreKept
refused-IsKept lib client sentence k = elim (Option-cases (take_out client lib.unanswered)) [
  | inl e ↦ ground (arith, e, k)
  | inr (out, e) ↦ elim (Option-cases out.0.list_id) [
    | inl n ↦ ground (arith, e, n, create-AreKept lib client out e n k)
    | inr (id, n) ↦
        let left = refused_list (record lib { unanswered = out.1 }) id client out.0.op sentence in
        ground (
          arith,
          e,
          n,
          IsSame-IsKept left (pulled_again left id).0 (pulled_again-IsSame left id)
              (refused_list-IsKept lib client id sentence out e n k),
        )
  ]
]

pub received_index-IsKept :
    (lower : String → String) (lib : Library) (lists : List ListEntry)
    → IsKept lib
    → IsKept (received_index lower lib lists).0
received_index-IsKept lower lib lists k =
    IsSame-IsKept lib (received_index lower lib lists).0 (received_index-IsSame lower lib lists) k
