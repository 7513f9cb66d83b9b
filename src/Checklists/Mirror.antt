-- ===== src/Checklists/Mirror.antt =====
-- The lists that the library and the engine hold, call by call
-- (desktop/core/src/checklists/library.rs), and the engine's own rule for them
-- (desktop/core/contracts/companion/PROTOCOL.md).
pub mod Accepted
pub mod Steps
use fermix_linux.Base.{
  ℕ, suc, ◌+◌, ◌-◌, ◌≤◌, ◌≡◌, refl, sym, subst, leb, if◌then◌else◌, ◌∙◌, ap, Bool, true, false, not,
  ◌&&◌, ◌||◌, List, [], ◌∷◌, ◌++◌, Option, none, some, String, str_mem, str_eq, is_some, arith,
  length, length-append, drop, filter, Bool-cases, Option-cases, inl, inr, append_assoc, append-nil,
}
use fermix_linux.Chat.Wire.Lists.{ListEntry, ListOp, ListRow}
use fermix_linux.Chat.Wire.Requests.{ClientEvent}
use fermix_linux.Chat.Wire.Events.{ServerError, ServerEvent}
use fermix_linux.Chat.Timeline.Cards.{daemon_reported}
use fermix_linux.Checklists.Draft.{or_else, reworded}
use fermix_linux.Checklists.State.{edit as edit_state}
use fermix_linux.Checklists.Library.{
  Held, Library, Outgoing, default, deliver, draw, event_of, hold, let_oldest_go, max_held, noted,
  pull, pull_all, pull_event, same_held, state_mut, wait,
}
use fermix_linux.Checklists.Library.Edits.{
  create, edit, outgoing, removal_op, remove, reword, say_refused, send_edit, takes,
}
use fermix_linux.Checklists.Library.Answers.{
  pulled_again, refusal, refused, refused_edit, refused_list, refused_out, take_out, indexed,
  is_named, pull_waiting, received_index, find_creates,
}
use fermix_linux.Checklists.Routing.{keeps_the_edit, lists_event}
use fermix_linux.Checklists.Calls.{Call, sent_of, step}
use fermix_linux.Checklists.Bounds.{IsBounded, length-filter, pull-IsBounded}

-- Past 16 the oldest is let go.
unfoldable pub newest_16 : List Held → List Held
newest_16 held = if leb (length held) max_held then held else drop 1 held

-- The engine makes the list that it is asked for, or that it makes, the newest that it holds.
unfoldable pub engine_hold : List Held → Held → List Held
unfolding filter newest_16
engine_hold held asked = newest_16 (filter (λ old. not (same_held asked old)) held ++ asked ∷ [])

-- What the engine holds of a request that it takes: of one, a pull, the list that it asks for.
unfoldable pub engine_takes : List Held → ClientEvent → List Held
unfolding engine_hold
engine_takes held (ClientEvent.checklist_pull profile list_id removed) =
    engine_hold held (Held.one list_id)
engine_takes held _ = held

unfoldable pub engine_all : List Held → List ClientEvent → List Held
unfolding engine_takes
engine_all held [] = held
engine_all held (event ∷ events) = engine_all (engine_takes held event) events

-- The first request of the id makes a list: it names none.
unfoldable pub is_create_of : String → List Outgoing → Bool
is_create_of id [] = false
is_create_of id (sent ∷ unanswered) =
    let later = is_create_of id unanswered in
    if str_eq sent.client_msg_id id then not (is_some sent.list_id) else later

-- What the engine holds at a call, the requests that the call sends taken. With the answer that
-- accepts a create, that is no duplicate, it holds the list that it made, as the newest.
unfoldable pub engine_at : Library → Call → List ClientEvent → List Held
unfolding engine_all engine_hold is_create_of
engine_at lib (Call.event (ServerEvent.accepted id duplicate _)) events =
    if is_create_of id lib.unanswered && not duplicate
    then engine_hold lib.held (Held.made id)
    else lib.held
engine_at lib _ events = engine_all lib.held events

pub engine_all-append :
    (held : List Held) (events others : List ClientEvent)
    → engine_all held (events ++ others) ≡ engine_all (engine_all held events) others
unfolding engine_all
engine_all-append held [] others = refl
engine_all-append held (event ∷ events) others =
    engine_all-append (engine_takes held event) events others

-- The connection is up, and brings lists.
abbrev pub IsUp : Library → Type 0
IsUp lib = (lib.connected ≡ true) × (lib.index.served ≡ true)

deliver_up : (lib : Library) (event : ClientEvent) → IsUp lib → deliver lib event ≡ event ∷ []
unfolding deliver
deliver_up lib event up = ground (arith, up)

-- What a call leaves held is what the engine holds once it took what the call sent.
abbrev pub Mirrors : Library → Library × List ClientEvent → Type 0
Mirrors lib next = next.0.held ≡ engine_all lib.held next.1

let_oldest_go_lem :
    (held : List Held) (ids : List String) → (let_oldest_go held ids).0 ≡ newest_16 held
unfolding let_oldest_go newest_16
let_oldest_go_lem [] ids = refl
let_oldest_go_lem (Held.one id ∷ held) ids = ground arith
let_oldest_go_lem (Held.made id ∷ held) ids = ground arith

pub hold-engine_hold :
    (lib : Library) (held : Held) (removed : Bool)
    → (hold lib held removed).held ≡ engine_hold lib.held held
unfolding hold engine_hold
hold-engine_hold lib held removed =
    let_oldest_go_lem (filter (λ old. not (same_held held old)) lib.held ++ held ∷ [])
      (noted held removed lib.with_removed)

pub pull-Mirrors :
    (lib : Library) (id : String) (removed : Bool) → IsUp lib → Mirrors lib (pull lib id removed)
unfolding pull deliver engine_all engine_takes
pull-Mirrors lib id removed up =
    let held = hold lib (Held.one id) removed in
    subst (λ events. held.held ≡ engine_all lib.held events)
      (sym (deliver_up held (pull_event id removed) up))
      (hold-engine_hold lib (Held.one id) removed)

pub pull_all-Mirrors :
    (lib : Library) (waiting : List (String × Bool)) → IsUp lib → Mirrors lib (pull_all lib waiting)
unfolding pull_all engine_all pull
pull_all-Mirrors lib [] up = refl
pull_all-Mirrors lib ((id, removed) ∷ rest) up =
    let first = pull lib id removed in
    let later = pull_all first.0 rest in
    pull_all-Mirrors first.0 rest up
    ∙ (ap (λ held. engine_all held later.1) (pull-Mirrors lib id removed up)
        ∙ sym (engine_all-append lib.held first.1 later.1))

wait-held : (lib : Library) (id : String) (removed : Bool) → (wait lib id removed).held ≡ lib.held
unfolding wait
wait-held lib id removed = ground arith

pub draw-Mirrors :
    (lib : Library) (id : String) (removed : Bool) → IsUp lib → Mirrors lib (draw lib id removed)
unfolding draw engine_all
draw-Mirrors lib id removed up =
    ground (arith, wait-held lib id removed, pull-Mirrors lib id removed up)
