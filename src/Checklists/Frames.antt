-- ===== src/Checklists/Frames.antt =====
-- What the pulls of lists leave as it is (desktop/core/src/checklists/library.rs).
use fermix_linux.Base.{
  ◌≡◌, refl, Bool, false, List, [], ◌∷◌, Option, none, some, String, arith, not, filter, str_mem,
}
use fermix_linux.Chat.Wire.Lists.{ListEntry}
use fermix_linux.Checklists.Index.{titled}
use fermix_linux.Checklists.Library.{Library, Held, draw, hold, pull, pull_all, wait}
use fermix_linux.Checklists.Library.Answers.{
  find_create, find_creates, found, found_all, indexed, let_go, pull_waiting, pulled_again,
  received_index, is_named,
}

-- The edits that wait, the states of the lists and the connection are the same.
abbrev pub IsSame : Library → Library → Type 0
IsSame lib next =
    (next.unanswered ≡ lib.unanswered)
    × ((next.states ≡ lib.states) × (next.connected ≡ lib.connected))

IsSame-trans : (a b c : Library) → IsSame a b → IsSame b c → IsSame a c
IsSame-trans a b c h k = ground (arith, h, k)

hold-IsSame : (lib : Library) (held : Held) (removed : Bool) → IsSame lib (hold lib held removed)
unfolding hold
hold-IsSame lib held removed = (refl, (refl, refl))

wait-IsSame : (lib : Library) (id : String) (removed : Bool) → IsSame lib (wait lib id removed)
unfolding wait
wait-IsSame lib id removed = ground arith

pub draw-IsSame :
    (lib : Library) (id : String) (removed : Bool) → IsSame lib (draw lib id removed).0
unfolding draw pull
draw-IsSame lib id removed =
    ground (arith, wait-IsSame lib id removed, hold-IsSame lib (Held.one id) removed)

pull_all-IsSame :
    (lib : Library) (waiting : List (String × Bool)) → IsSame lib (pull_all lib waiting).0
unfolding pull_all pull
pull_all-IsSame lib [] = (refl, (refl, refl))
pull_all-IsSame lib ((id, removed) ∷ rest) =
    let next = (pull lib id removed).0 in
    IsSame-trans lib next (pull_all next rest).0 (hold-IsSame lib (Held.one id) removed)
      (pull_all-IsSame next rest)

find_create-IsSame :
    (lib : Library) (letting_go : Bool) (client : String) (named : Option ListEntry)
    → IsSame lib (find_create lib letting_go client named).0
unfolding find_create found let_go
find_create-IsSame lib letting_go client none = ground arith
find_create-IsSame lib letting_go client (some entry) =
    draw-IsSame (found lib client entry.list_id) entry.list_id false

find_creates-IsSame :
    (lower : String → String) (lib : Library) (letting_go : Bool) (creates : List (String × String))
    → IsSame lib (find_creates lower lib letting_go creates).0
unfolding find_creates
find_creates-IsSame lower lib letting_go [] = (refl, (refl, refl))
find_creates-IsSame lower lib letting_go ((client, title) ∷ creates) =
    let named = titled lower lib.index title in
    let next = (find_create lib letting_go client named).0 in
    IsSame-trans lib next (find_creates lower next letting_go creates).0
      (find_create-IsSame lib letting_go client named)
      (find_creates-IsSame lower next letting_go creates)

pub received_index-IsSame :
    (lower : String → String) (lib : Library) (lists : List ListEntry)
    → IsSame lib (received_index lower lib lists).0
unfolding received_index pull_waiting
received_index-IsSame lower lib lists =
    let found = find_creates lower (indexed lib lists) (not lib.index_current) lib.creating in
    IsSame-trans lib found.0 (pull_waiting found.0).0
      (find_creates-IsSame lower (indexed lib lists) (not lib.index_current) lib.creating)
      (pull_all-IsSame
        (record found.0 {
          waiting = filter (λ entry. not (is_named found.0 entry)) found.0.waiting;
        })
        (filter (is_named found.0) found.0.waiting))

pub pulled_again-IsSame : (lib : Library) (id : String) → IsSame lib (pulled_again lib id).0
unfolding pulled_again pull
pulled_again-IsSame lib id =
    ground (arith, hold-IsSame lib (Held.one id) (str_mem id lib.with_removed))

pub found_all-IsSame :
    (lib : Library) (made : List (String × String)) → IsSame lib (found_all lib made)
unfolding found_all found
found_all-IsSame lib [] = (refl, (refl, refl))
found_all-IsSame lib ((client, id) ∷ made) =
    IsSame-trans lib (found lib client id) (found_all (found lib client id) made)
      (refl, (refl, refl)) (found_all-IsSame (found lib client id) made)
