-- ===== src/Checklists/Library/Answers.antt =====
-- What the daemon sends of the lists, and the connection's begin and end, as the library takes
-- them (desktop/core/src/checklists/library.rs).
use Prim.Native.String.{compare}
use text.Mathlib.Text.{is_lt}
use fermix_linux.Base.{
  ℕ, ◌-◌, Bool, true, false, not, ◌||◌, List, [], ◌∷◌, ◌++◌, Option, none, some, String, str_eq,
  str_mem, leb, if◌then◌else◌, length, any, filter, drop, map, update_first, trim, trim_start,
  trim_end,
}
use fermix_linux.Chat.Wire.Lists.{ListEntry, ListOp, OwnerList}
use fermix_linux.Chat.Wire.Requests.{ClientEvent, profile}
use fermix_linux.Chat.Wire.Events.{ServerError}
use fermix_linux.Chat.Timeline.Cards.{daemon_reported}
use fermix_linux.Checklists.{lists_since}
use fermix_linux.Checklists.Draft.{or_else}
use fermix_linux.Checklists.State.{
  received as received_state, accepted as accepted_state, dropped, refused as refused_state,
}
use fermix_linux.Checklists.Index.{lacks, serve, show, titled, made as made_index}
use fermix_linux.Checklists.Library.{
  Library, Held, Outgoing, event_of, state_mut, deliver, draw, hold, holds, pull, pull_all, is_made,
  max_waiting,
}
use fermix_linux.Checklists.Library.Edits.{refuse_here, restores_list}

-- The held lists that wait to be pulled again.
unfoldable pub again : List String → List Held → List (String × Bool)
unfolding str_mem
again with_removed [] = []
again with_removed (Held.one id ∷ held) = (id, str_mem id with_removed) ∷ again with_removed held
again with_removed (Held.made id ∷ held) = again with_removed held

-- What was drawn since, but for the oldest that there is no room for.
unfoldable pub since : Library → List (String × Bool)
unfolding again holds filter
since lib =
    let drawn = filter (λ entry. not (holds lib entry.0)) lib.waiting in
    let room = max_waiting - length (again lib.with_removed lib.held) in
    drop (length drawn - room) drawn

-- Each event as it is delivered.
unfoldable pub deliver_all : Library → List ClientEvent → List ClientEvent
unfolding deliver
deliver_all lib [] = []
deliver_all lib (event ∷ events) = deliver lib event ++ deliver_all lib events

unfoldable pub renewed : Library → ℕ → Library
unfolding again since
renewed lib version = record lib {
  connected = true;
  index_current = false;
  index = serve lib.index (leb lists_since version);
  waiting = again lib.with_removed lib.held ++ since lib;
  held = [];
  with_removed = [];
}

unfoldable pub negotiated : Library → ℕ → Library × List ClientEvent
unfolding renewed deliver_all
negotiated lib version =
    let now = renewed lib version in
    (now, deliver_all now (map event_of lib.unanswered ++ ClientEvent.checklists_pull profile ∷ []))

abbrev pub disconnected : Library → Library
disconnected lib = record lib { connected = false; index_current = false }

-- `BTreeMap::remove`
unfoldable pub map_remove : String → List (String × String) → List (String × String)
unfolding filter
map_remove key entries = filter (λ entry. not (str_eq entry.0 key)) entries

-- `BTreeMap::insert`
unfoldable pub map_insert : String → String → List (String × String) → List (String × String)
map_insert key value [] = (key, value) ∷ []
map_insert key value ((other, old) ∷ entries) =
    let rest = map_insert key value entries in
    if str_eq key other
    then (key, value) ∷ entries
    else if is_lt (compare key other)
    then (key, value) ∷ (other, old) ∷ entries
    else (other, old) ∷ rest

-- `held.remove(at)`, at the first place held for a create
unfoldable pub remove_made : String → List Held → List Held
remove_made client_msg_id [] = []
remove_made client_msg_id (old ∷ held) =
    let rest = remove_made client_msg_id held in
    if is_made client_msg_id old then held else old ∷ rest

unfoldable pub found : Library → String → String → Library
unfolding map_remove holds remove_made update_first
found lib client_msg_id list_id = record lib {
  creating = map_remove client_msg_id lib.creating;
  held =
      if holds lib list_id
      then remove_made client_msg_id lib.held
      else update_first (is_made client_msg_id) (λ old. Held.one list_id) lib.held;
  index = made_index lib.index (record { client_msg_id = client_msg_id; list_id = list_id });
}

unfoldable pub let_go : Library → String → Library
unfolding map_remove filter
let_go lib client_msg_id = record lib {
  creating = map_remove client_msg_id lib.creating;
  held = filter (λ old. not (is_made client_msg_id old)) lib.held;
}

-- One create of `find_creates`, by the entry that its title names.
unfoldable pub find_create : Library → Bool → String → Option ListEntry → Library × List ClientEvent
unfolding found draw let_go
find_create lib letting_go client_msg_id (some entry) =
    draw (found lib client_msg_id entry.list_id) entry.list_id false
find_create lib letting_go client_msg_id none =
    (if letting_go then let_go lib client_msg_id else lib, [])

unfoldable pub find_creates :
    (String → String) → Library → Bool → List (String × String) → Library × List ClientEvent
unfolding find_create titled
find_creates to_lowercase lib letting_go [] = (lib, [])
find_creates to_lowercase lib letting_go ((client_msg_id, title) ∷ creates) =
    let first = find_create lib letting_go client_msg_id (titled to_lowercase lib.index title) in
    let later = find_creates to_lowercase first.0 letting_go creates in
    (later.0, first.1 ++ later.1)

abbrev pub is_named : Library → String × Bool → Bool
is_named lib entry = not (lacks lib.index entry.0)

unfoldable pub pull_waiting : Library → Library × List ClientEvent
unfolding pull_all filter
pull_waiting lib =
    pull_all (record lib { waiting = filter (λ entry. not (is_named lib entry)) lib.waiting })
      (filter (is_named lib) lib.waiting)

-- The library as an index begins to be taken.
abbrev pub indexed : Library → List ListEntry → Library
indexed lib lists = record lib { index = show lib.index lists; index_current = true }

unfoldable pub received_index :
    (String → String) → Library → List ListEntry → Library × List ClientEvent
unfolding find_creates pull_waiting
received_index to_lowercase lib lists =
    let creates =
      find_creates to_lowercase (indexed lib lists) (not lib.index_current) lib.creating in
    let pulled = pull_waiting creates.0 in (pulled.0, creates.1 ++ pulled.1)

-- Each create that a list names is found.
unfoldable pub found_all : Library → List (String × String) → Library
unfolding found
found_all lib [] = lib
found_all lib ((client_msg_id, list_id) ∷ made) = found_all (found lib client_msg_id list_id) made

-- `creating.contains_key`
abbrev pub is_creating : Library → String × String → Bool
is_creating lib entry = any (λ create. str_eq create.0 entry.0) lib.creating

unfoldable pub received_list : Library → OwnerList → List (String × String) → Library
unfolding found_all state_mut filter received_state
received_list lib list made =
    state_mut (found_all lib (filter (is_creating lib) made)) list.list_id
      (λ s. (received_state s list made).0)

-- `position`, and the edit at it removed
unfoldable pub take_out : String → List Outgoing → Option (Outgoing × List Outgoing)
take_out client_msg_id [] = none
take_out client_msg_id (sent ∷ unanswered) =
    let later = take_out client_msg_id unanswered in
    if str_eq sent.client_msg_id client_msg_id
    then some (sent, unanswered)
    else elim later [ none ↦ none | some (out, rest) ↦ some (out, sent ∷ rest) ]

-- The creates that wait, once one is accepted.
abbrev pub creating_too : String → ListOp → List (String × String) → List (String × String)
unfolding map_insert trim_start trim_end
creating_too client_msg_id (ListOp.create title folder) creating =
    map_insert client_msg_id (trim title) creating
creating_too client_msg_id _ creating = creating

unfoldable pub create_accepted : Library → String → ListOp → Bool → Library
unfolding hold map_insert trim_start trim_end
create_accepted lib client_msg_id op duplicate =
    let known = record lib { creating = creating_too client_msg_id op lib.creating } in
    if duplicate then known else hold known (Held.made client_msg_id) false

-- `accepted`, past the edit that was removed.
unfoldable pub accepted_edit : Library → String → Bool → Outgoing → Library
unfolding create_accepted state_mut accepted_state
accepted_edit lib client_msg_id duplicate sent = elim sent.list_id [
  | none ↦ create_accepted lib sent.client_msg_id sent.op duplicate
  | some list_id ↦ state_mut lib list_id (λ s. accepted_state s client_msg_id)
]

unfoldable pub accepted_out :
    Library → String → Bool → Option (Outgoing × List Outgoing) → Library × Bool
unfolding accepted_edit
accepted_out lib client_msg_id duplicate none = (lib, false)
accepted_out lib client_msg_id duplicate (some (sent, rest)) =
    (accepted_edit (record lib { unanswered = rest }) client_msg_id duplicate sent, true)

unfoldable pub accepted : Library → String → Bool → Library × Bool
unfolding take_out accepted_out
accepted lib client_msg_id duplicate =
    accepted_out lib client_msg_id duplicate (take_out client_msg_id lib.unanswered)

-- A list's refused edit, as its state and the index take it.
unfoldable pub refused_list : Library → String → String → ListOp → String → Library
unfolding state_mut dropped refused_state
refused_list lib list_id client_msg_id op sentence =
    if restores_list op || lacks lib.index list_id
    then refuse_here (state_mut lib list_id (λ s. dropped s client_msg_id)) (some sentence)
    else state_mut lib list_id (λ s. refused_state s client_msg_id sentence)

-- A held list is pulled again.
unfoldable pub pulled_again : Library → String → Library × List ClientEvent
unfolding holds pull str_mem
pulled_again lib list_id =
    if not (holds lib list_id)
    then (lib, [])
    else pull lib list_id (str_mem list_id lib.with_removed)

-- `refused`, past the edit that was removed.
unfoldable pub refused_edit : Library → String → String → Outgoing → Library × List ClientEvent
unfolding refused_list pulled_again
refused_edit lib client_msg_id sentence sent = elim sent.list_id [
  | none ↦ (refuse_here lib (some sentence), [])
  | some list_id ↦ pulled_again (refused_list lib list_id client_msg_id sent.op sentence) list_id
]

unfoldable pub refused_out :
    Library
    → String
    → String
    → Option (Outgoing × List Outgoing)
    → Library × Option (List ClientEvent)
unfolding refused_edit
refused_out lib client_msg_id sentence none = (lib, none)
refused_out lib client_msg_id sentence (some (sent, rest)) =
    let step = refused_edit (record lib { unanswered = rest }) client_msg_id sentence sent in
    (step.0, some step.1)

unfoldable pub refused : Library → String → String → Library × Option (List ClientEvent)
unfolding take_out refused_out
refused lib client_msg_id sentence =
    refused_out lib client_msg_id sentence (take_out client_msg_id lib.unanswered)

unfoldable pub refusal : Library → ServerError → Library × Option (List ClientEvent)
unfolding refused
refusal lib e = elim e.client_msg_id [
  | none ↦ (lib, none)
  | some id ↦ refused lib id (or_else e.message (daemon_reported e.reason))
]
