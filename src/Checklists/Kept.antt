-- ===== src/Checklists/Kept.antt =====
-- The edits drawn over a list that the engine has not taken wait for its answer
-- (desktop/core/src/checklists/library.rs, state.rs).
pub mod Lists
pub mod Out
pub mod Steps
pub mod Answers
pub mod Runs
mod Tests
use Prim.{tt}
use fermix_linux.Base.{
  ◌≡◌, refl, sym, subst, ap, ◌∙◌, Bool, true, false, not, List, [], ◌∷◌, ◌++◌, Option, none, some,
  String, str_eq, str_eq_iff, arith, ◌⊎◌, inl, inr, any, filter, update_first, Bool-cases,
  Option-cases,
}
use fermix_linux.Checklists.State.{PendingEdit, ListState, has_id, taken}
use fermix_linux.Checklists.Library.{Library, Outgoing, or_default, put_state, state_in}
use fermix_linux.Checklists.Library.Edits.{outgoing}
use fermix_linux.Checklists.Library.Answers.{take_out}

-- An edit waits for its answer.
unfoldable pub Waits : Outgoing → List Outgoing → Type 0
Waits out [] = ⊥
Waits out (sent ∷ unanswered) = (out ≡ sent) ⊎ Waits out unanswered

abbrev pub sent_of : String → PendingEdit → Outgoing
sent_of list_id edit = outgoing edit.client_msg_id (some list_id) edit.op

-- Each edit drawn over a list was accepted or waits for its answer, and no two have one id.
unfoldable pub AreSent : String → List Outgoing → List PendingEdit → Type 0
unfolding Waits
AreSent list_id unanswered [] = Unit
AreSent list_id unanswered (edit ∷ edits) =
    (any (has_id edit.client_msg_id) edits ≡ false)
    × (((edit.accepted ≡ true) ⊎ Waits (sent_of list_id edit) unanswered)
        × AreSent list_id unanswered edits)

-- The edits drawn over a list.
abbrev pub pending_in : String → List (String × ListState) → List PendingEdit
pending_in list_id states = (or_default (state_in list_id states)).pending

-- So are the edits of every list.
unfoldable pub AreKept : List Outgoing → List (String × ListState) → Type 0
unfolding AreSent state_in
AreKept unanswered states =
    (list_id : String) → AreSent list_id unanswered (pending_in list_id states)

abbrev pub IsKept : Library → Type 0
IsKept lib = AreKept lib.unanswered lib.states
