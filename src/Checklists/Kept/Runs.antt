-- ===== src/Checklists/Kept/Runs.antt =====
-- The edits that a list draws, over a run of calls (desktop/core/src/checklists/library.rs).
use Prim.{tt}
use fermix_linux.Base.{
  ◌≡◌, refl, sym, subst, false, List, [], ◌∷◌, Option, none, some, String, arith, ◌⊎◌, inl, inr,
  filter, str_eq_iff,
}
use fermix_linux.Chat.Wire.Lists.{OwnerList}
use fermix_linux.Checklists.State.{
  PendingEdit, ListState, shown as shown_state, is_newer, received as received_state, is_left,
  names, applying,
}
use fermix_linux.Checklists.Library.{
  Library, default, draw, or_default, put_state, shown, state, state_in, state_mut,
}
use fermix_linux.Checklists.Library.Answers.{found_all, is_creating, received_list}
use fermix_linux.Checklists.Calls.{Call, run, step}
use fermix_linux.Checklists.Taken.{lists_event_lem}
use fermix_linux.Checklists.Kept.{AreKept, AreSent, IsKept, Waits, pending_in}
use fermix_linux.Checklists.Kept.Steps.{
  IsFresh, create-IsKept, edit-IsKept, remove-IsKept, reword-IsKept, IsSame-IsKept,
  state_in-put_state,
}
use fermix_linux.Checklists.Kept.Answers.{
  accepted-IsKept, received_index-IsKept, received_list-IsKept, refused-IsKept,
}
use fermix_linux.Checklists.Frames.{draw-IsSame, found_all-IsSame}

-- An edit made has an id of its own among the edits still drawn over its list.
unfoldable pub IsCall : Library → Call → Type 0
unfolding IsFresh
IsCall lib (Call.edits id op client) = IsFresh id client lib
IsCall lib (Call.removes id row client) = IsFresh id client lib
IsCall lib (Call.rewords id began words memo client) = IsFresh id client lib
IsCall lib _ = Unit

unfoldable pub AreCalls : (String → String) → Library → List Call → Type 0
unfolding IsCall step
AreCalls lower lib [] = Unit
AreCalls lower lib (c ∷ calls) = IsCall lib c × AreCalls lower (step lower lib c).0 calls

step-IsKept :
    (lower : String → String) (lib : Library) (c : Call)
    → IsCall lib c
    → IsKept lib
    → IsKept (step lower lib c).0
unfolding step IsCall
step-IsKept lower lib (Call.draws id removed) v k =
    IsSame-IsKept lib (draw lib id removed).0 (draw-IsSame lib id removed) k
step-IsKept lower lib (Call.edits id op client) v k = edit-IsKept lib id client op v k
step-IsKept lower lib (Call.removes id row client) v k = remove-IsKept lib id client row v k
step-IsKept lower lib (Call.rewords id began words memo client) v k =
    reword-IsKept lib id client began words memo v k
step-IsKept lower lib (Call.creates title folder client) v k =
    create-IsKept lib title client folder k
step-IsKept lower lib (Call.handshake version) v k = k
step-IsKept lower lib Call.ending v k = k
step-IsKept lower lib (Call.event e) v k =
    lists_event_lem IsKept lower lib k (λ lists. received_index-IsKept lower lib lists k)
      (λ list made. received_list-IsKept lib list made k)
      (λ id duplicate. accepted-IsKept lib id duplicate k)
      (λ id sentence. refused-IsKept lib id sentence k) e

run-IsKept_from :
    (lower : String → String) (lib : Library) (calls : List Call)
    → AreCalls lower lib calls
    → IsKept lib
    → IsKept (run lower lib calls)
unfolding run AreCalls
run-IsKept_from lower lib [] v k = k
run-IsKept_from lower lib (c ∷ calls) v k =
    run-IsKept_from lower (step lower lib c).0 calls v.1 (step-IsKept lower lib c v.0 k)

default-IsKept : IsKept default
unfolding AreKept
default-IsKept = λ l. tt

-- An edit that is drawn and not accepted.
unfoldable pub IsDrawn : PendingEdit → List PendingEdit → Type 0
IsDrawn edit [] = ⊥
IsDrawn edit (other ∷ edits) = (edit ≡ other) ⊎ IsDrawn edit edits

-- With nothing waiting, a list that comes leaves no edit drawn over it.
none_left :
    (list_id : String) (made : List (String × String)) (edits : List PendingEdit)
    → AreSent list_id [] edits
    → filter (is_left made) edits ≡ []
unfolding AreSent Waits filter is_left names
none_left list_id made [] k = refl
none_left list_id made (edit ∷ edits) (u, (inl e, k)) =
    ground (arith, e, none_left list_id made edits k)
none_left list_id made (edit ∷ edits) (u, (inr w, k)) = elim w [ ]

received_state_lem :
    (list_id : String) (s : ListState) (list : OwnerList) (made : List (String × String))
    → is_newer s.engine list ≡ false
    → AreSent list_id [] s.pending
    → shown_state (received_state s list made).0 ≡ some list
unfolding shown_state received_state applying
received_state_lem list_id s list made h k = ground (arith, h, none_left list_id made s.pending k)

-- The list as the engine last sent it.
abbrev pub engine_of : Library → String → Option OwnerList
engine_of lib list_id = (or_default (state_in list_id lib.states)).engine

-- What is shown of a list, where a state is put at it.
shown-put_state :
    (list : OwnerList) (made : List (String × String)) (states : List (String × ListState))
    → AreSent list.list_id [] (pending_in list.list_id states)
    → is_newer (or_default (state_in list.list_id states)).engine list ≡ false
    → elim (state_in list.list_id (
        put_state list.list_id
          (received_state (or_default (state_in list.list_id states)) list made).0
          states)) [ none ↦ none | some s ↦ shown_state s ]
      ≡ some list
shown-put_state list made states k h =
    let id = list.list_id in
    let next = (received_state (or_default (state_in id states)) list made).0 in
    let found : state_in id (put_state id next states) ≡ some next =
      ground (arith, state_in-put_state id id next states, (str_eq_iff id id).1 refl) in
    subst (λ o. elim o [ none ↦ none | some s ↦ shown_state s ] ≡ some list) (sym found)
      (received_state_lem id (or_default (state_in id states)) list made h k)

received_list_lem :
    (lib : Library) (list : OwnerList) (made : List (String × String))
    → IsKept lib
    → lib.unanswered ≡ []
    → is_newer (engine_of lib list.list_id) list ≡ false
    → shown (received_list lib list made) list.list_id ≡ some list
unfolding shown state received_list state_mut AreKept
received_list_lem lib list made k none_out h =
    let named = found_all lib (filter (is_creating lib) made) in
    subst
      (λ states.
        elim (state_in list.list_id (
          put_state list.list_id
            (received_state (or_default (state_in list.list_id states)) list made).0 states)) [
              | none ↦ none
              | some s ↦ shown_state s
            ]
        ≡ some list)
      (sym (found_all-IsSame lib (filter (is_creating lib) made)).1.0)
      (shown-put_state list made lib.states
        (subst (λ un. AreSent list.list_id un (pending_in list.list_id lib.states)) none_out
          (k list.list_id))
        h)

-- Where each edit made has an id of its own among those drawn over its list: once every edit was
-- answered, a list that comes and is no older than the one held is drawn as it came.
pub run-received_list :
    (lower : String → String) (calls : List Call) (list : OwnerList) (made : List (String × String))
    → AreCalls lower default calls
    → (run lower default calls).unanswered ≡ []
    → is_newer (engine_of (run lower default calls) list.list_id) list ≡ false
    → shown (received_list (run lower default calls) list made) list.list_id ≡ some list
run-received_list lower calls list made v none_out h =
    received_list_lem (run lower default calls) list made
      (run-IsKept_from lower default calls v default-IsKept) none_out h
