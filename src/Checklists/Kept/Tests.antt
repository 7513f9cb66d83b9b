-- ===== src/Checklists/Kept/Tests.antt =====
-- The theorems on the library at concrete inputs.
use Prim.{tt}
use fermix_linux.Base.{◌≡◌, refl, false, List, [], ◌∷◌, ◌++◌, none, some, String}
use fermix_linux.Chat.Wire.Lists.{ListOp, OwnerList}
use fermix_linux.Chat.Wire.Events.{ServerEvent}
use fermix_linux.Checklists.State.{PendingEdit, is_newer}
use fermix_linux.Checklists.Library.{Library, default, shown as shown_list, state_in}
use fermix_linux.Checklists.Library.Answers.{received_list}
use fermix_linux.Checklists.Calls.{Call, run}
use fermix_linux.Checklists.Mirror.{IsUp}
use fermix_linux.Checklists.Bounds.{IsBounded}
use fermix_linux.Checklists.Bounds.Runs.{run-IsBounded}
use fermix_linux.Checklists.Kept.Runs.{AreCalls, engine_of, run-received_list}

-- Texts that are compared are in lower case.
abbrev lower : String → String
lower text = text

abbrev addition : ListOp
addition = ListOp.add "Milk" none none none

-- A connection, its index, a list drawn, and an item added to it.
abbrev added : List Call
added =
    Call.handshake 6
    ∷ Call.event (
        ServerEvent.checklists (
          record {
            list_id = "l1";
            title = "shopping";
            folder = none;
            opened = 0;
            done = 0;
            rev = 1;
          }
          ∷ []))
    ∷ Call.draws "l1" false
    ∷ Call.edits "l1" addition "c1"
    ∷ []

abbrev drawn : PendingEdit
drawn = record { client_msg_id = "c1"; op = addition; accepted = false }

run-IsBounded_example : IsBounded (run lower default added)
run-IsBounded_example = run-IsBounded lower added

-- The connection ends before the edit is answered.
abbrev dropped : List Call
dropped = added ++ Call.ending ∷ []

-- The edit is answered, and the list comes.
abbrev answered : List Call
answered = added ++ Call.event (ServerEvent.accepted "c1" false none) ∷ []

answered-AreCalls : AreCalls lower default answered
unfolding AreCalls
answered-AreCalls = (tt, (tt, (tt, (refl, (tt, tt)))))

abbrev pushed : OwnerList
pushed = record {
  list_id = "l1";
  title = "shopping";
  rev = 2;
  rows =
      record {
        row_id = "ci_1";
        kind = "item";
        text = "Milk";
        note = none;
        done = some false;
        done_at = none;
      }
      ∷ [];
  removed = [];
  removed_at = none;
}

answered-unanswered : (run lower default answered).unanswered ≡ []
unfolding run
answered-unanswered = refl

answered-engine_of : is_newer (engine_of (run lower default answered) "l1") pushed ≡ false
unfolding run state_in
answered-engine_of = refl

run-received_list_example :
    shown_list (received_list (run lower default answered) pushed []) "l1" ≡ some pushed
run-received_list_example =
    run-received_list lower answered pushed [] answered-AreCalls answered-unanswered
      answered-engine_of

-- A connection whose index has come.
abbrev indexed : List Call
indexed =
    Call.handshake 6
    ∷ Call.event (
        ServerEvent.checklists (
          record {
            list_id = "l1";
            title = "shopping";
            folder = none;
            opened = 0;
            done = 0;
            rev = 1;
          }
          ∷ []))
    ∷ []

indexed-IsUp : IsUp (run lower default indexed)
unfolding run
indexed-IsUp = (refl, refl)

-- A create waits, and its acceptance comes.
abbrev making : Library
making = run lower (run lower default indexed) (Call.creates "groceries" none "e9" ∷ [])

abbrev acceptance : Call
acceptance = Call.event (ServerEvent.accepted "e9" false none)
