-- ===== src/Checklists/Mirror/Steps.antt =====
-- What each call leaves held (desktop/core/src/checklists/library.rs).
use fermix_linux.Base.{◌≡◌, not, List, [], ◌++◌, String}
use fermix_linux.Chat.Wire.Lists.{ListEntry}
use fermix_linux.Chat.Wire.Requests.{ClientEvent}
use fermix_linux.Chat.Wire.Events.{ServerEvent}
use fermix_linux.Checklists.State.{edit as edit_state}
use fermix_linux.Checklists.Library.{Library}
use fermix_linux.Checklists.Library.Edits.{edit}
use fermix_linux.Checklists.Library.Answers.{indexed, pull_waiting, find_creates}
use fermix_linux.Checklists.Calls.{Call}

-- An index, with the creates that wait.
unfoldable index_step :
    (String → String)
    → Library
    → List ListEntry
    → List (String × String)
    → Library × List ClientEvent
unfolding find_creates pull_waiting
index_step lower lib lists creates =
    let found = find_creates lower (indexed lib lists) (not lib.index_current) creates in
    let pulled = pull_waiting found.0 in (pulled.0, found.1 ++ pulled.1)

-- A call on a connection that goes on, but for a create and for what names the list that one made:
-- no handshake, no end, and no event but a refusal, an acceptance, or an index that comes where no
-- create waits to be named.
unfoldable pub NamesNone : Library → Call → Type 0
NamesNone lib (Call.creates title folder client) = ⊥
NamesNone lib (Call.handshake version) = ⊥
NamesNone lib Call.ending = ⊥
NamesNone lib (Call.event (ServerEvent.checklists lists)) = lib.creating ≡ []
NamesNone lib (Call.event (ServerEvent.accepted id duplicate seq)) = Unit
NamesNone lib (Call.event (ServerEvent.error e)) = Unit
NamesNone lib (Call.event _) = ⊥
NamesNone lib _ = Unit
