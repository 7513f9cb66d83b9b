-- ===== src/Checklists/Library.antt =====
-- Every list that the chat draws, and what the engine holds of them for a connection
-- (desktop/core/src/checklists/library.rs).
pub mod Edits
pub mod Answers
use fermix_linux.Base.{
  ℕ, ◌+◌, Bool, true, false, not, ◌&&◌, ◌||◌, List, [], ◌∷◌, ◌++◌, Option, none, some, String,
  str_eq, str_mem, leb, ltb, if◌then◌else◌, length, filter, update_first, any, drop,
}
use fermix_linux.Chat.Wire.Lists.{ListOp, OwnerList}
use fermix_linux.Chat.Wire.Requests.{ClientEvent, profile}
use fermix_linux.Chat.Timeline.State.{max_pending}
use fermix_linux.Checklists.State.{ListState, default as default_state, shown as shown_state}
use fermix_linux.Checklists.Index.{Index, default as default_index, lacks}

abbrev pub max_held : ℕ
max_held = 16

abbrev pub max_waiting : ℕ
max_waiting = max_pending

pub data Held : Type 0 where
  one made : String → Held

pub record Outgoing : Type 0 where
  pub client_msg_id : String
  pub list_id : Option String
  pub op : ListOp

abbrev pub event_of : Outgoing → ClientEvent
event_of sent = ClientEvent.checklist_edit sent.client_msg_id profile sent.list_id sent.op

-- `states` and `creating` are maps, each key once, `creating` in the order of its keys;
-- `with_removed` is a set.
pub record Library : Type 0 where
  pub index : Index
  pub states : List (String × ListState)
  pub held : List Held
  pub with_removed : List String
  pub waiting : List (String × Bool)
  pub index_current : Bool
  pub unanswered : List Outgoing
  pub creating : List (String × String)
  pub connected : Bool

abbrev pub default : Library
default = record {
  index = default_index;
  states = [];
  held = [];
  with_removed = [];
  waiting = [];
  index_current = false;
  unanswered = [];
  creating = [];
  connected = false;
}

unfoldable pub state_in : String → List (String × ListState) → Option ListState
state_in list_id [] = none
state_in list_id ((id, s) ∷ states) =
    let rest = state_in list_id states in if str_eq list_id id then some s else rest

unfoldable pub put_state :
    String → ListState → List (String × ListState) → List (String × ListState)
put_state list_id s [] = (list_id, s) ∷ []
put_state list_id s ((id, old) ∷ states) =
    let rest = put_state list_id s states in
    if str_eq list_id id then (id, s) ∷ states else (id, old) ∷ rest

abbrev pub or_default : Option ListState → ListState
or_default none = default_state
or_default (some s) = s

-- `state_mut`, and what is done to the state
unfoldable pub state_mut : Library → String → (ListState → ListState) → Library
unfolding state_in put_state
state_mut lib list_id change = record lib {
  states = put_state list_id (change (or_default (state_in list_id lib.states))) lib.states;
}

unfoldable pub state : Library → String → Option ListState
unfolding state_in
state lib list_id = state_in list_id lib.states

unfoldable pub shown : Library → String → Option OwnerList
unfolding state shown_state
shown lib list_id = elim (state lib list_id) [ none ↦ none | some s ↦ shown_state s ]

abbrev pub creates_waiting : Library → ℕ
creates_waiting lib = length lib.creating

unfoldable pub deliver : Library → ClientEvent → List ClientEvent
deliver lib event = if not lib.connected || not lib.index.served then [] else event ∷ []

abbrev pub is_one : String → Held → Bool
is_one list_id (Held.one id) = str_eq id list_id
is_one list_id (Held.made id) = false

abbrev pub is_made : String → Held → Bool
is_made client_msg_id (Held.one id) = false
is_made client_msg_id (Held.made id) = str_eq id client_msg_id

unfoldable pub holds : Library → String → Bool
holds lib list_id = any (is_one list_id) lib.held

-- `==` of what is held
abbrev pub same_held : Held → Held → Bool
same_held (Held.one id) old = is_one id old
same_held (Held.made id) old = is_made id old

-- `BTreeSet::remove`
unfoldable pub set_remove : String → List String → List String
unfolding filter
set_remove id ids = filter (λ other. not (str_eq other id)) ids

-- The lists pulled with their removed rows, once one is held.
abbrev pub noted : Held → Bool → List String → List String
unfolding set_remove
noted (Held.made id) removed ids = ids
noted (Held.one id) removed ids = if removed then id ∷ set_remove id ids else set_remove id ids

-- Past 16 the oldest is let go.
unfoldable pub let_oldest_go : List Held → List String → List Held × List String
unfolding set_remove
let_oldest_go [] ids = ([], ids)
let_oldest_go (Held.one id ∷ held) ids =
    if leb (length (Held.one id ∷ held)) max_held
    then (Held.one id ∷ held, ids)
    else (held, set_remove id ids)
let_oldest_go (Held.made id ∷ held) ids =
    if leb (length (Held.made id ∷ held)) max_held then (Held.made id ∷ held, ids) else (held, ids)

unfoldable pub hold : Library → Held → Bool → Library
unfolding let_oldest_go set_remove filter
hold lib held removed =
    let left = filter (λ old. not (same_held held old)) lib.held in
    let kept = let_oldest_go (left ++ held ∷ []) (noted held removed lib.with_removed) in
    record lib { held = kept.0; with_removed = kept.1 }

abbrev pub pull_event : String → Bool → ClientEvent
pull_event list_id removed =
    ClientEvent.checklist_pull profile list_id (if removed then some true else none)

unfoldable pub pull : Library → String → Bool → Library × List ClientEvent
unfolding hold deliver
pull lib list_id removed =
    let now = hold lib (Held.one list_id) removed in (now, deliver now (pull_event list_id removed))

-- Each list pulled in turn.
unfoldable pub pull_all : Library → List (String × Bool) → Library × List ClientEvent
unfolding pull
pull_all lib [] = (lib, [])
pull_all lib ((list_id, removed) ∷ rest) =
    let first = pull lib list_id removed in
    let later = pull_all first.0 rest in (later.0, first.1 ++ later.1)

abbrev pub waits_for : String → String × Bool → Bool
waits_for list_id entry = str_eq entry.0 list_id

abbrev pub asked_too : Bool → String × Bool → String × Bool
asked_too removed entry = (entry.0, entry.1 || removed)

-- Past 64 waiting the oldest is dropped.
unfoldable pub drop_oldest {ℓ} : {A : Type ℓ} → List A → List A
drop_oldest waiting = if ltb max_waiting (length waiting) then drop 1 waiting else waiting

unfoldable pub wait : Library → String → Bool → Library
unfolding update_first drop_oldest
wait lib list_id removed =
    if any (waits_for list_id) lib.waiting
    then record lib { waiting = update_first (waits_for list_id) (asked_too removed) lib.waiting }
    else record lib { waiting = drop_oldest (lib.waiting ++ (list_id, removed) ∷ []) }

abbrev pub is_ready : Library → Bool
is_ready lib = lib.connected && lib.index.served && lib.index_current

unfoldable pub draw : Library → String → Bool → Library × List ClientEvent
unfolding holds wait pull str_mem
draw lib list_id removed =
    if holds lib list_id && (not removed || str_mem list_id lib.with_removed)
    then (lib, [])
    else if not (is_ready lib) || lacks lib.index list_id
    then (wait lib list_id removed, [])
    else pull lib list_id removed
