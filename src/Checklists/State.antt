-- ===== src/Checklists/State.antt =====
-- One list as the app holds it (desktop/core/src/checklists/state.rs).
use fermix_linux.Base.{
  Bool, true, false, not, ◌&&◌, List, [], ◌∷◌, ◌++◌, Option, none, some, is_some, String, str_eq,
  ltb, if◌then◌else◌, filter, update_first, any,
}
use fermix_linux.Chat.Wire.Lists.{OwnerList, ListOp}
use fermix_linux.Checklists.Draft.{apply}

pub record PendingEdit : Type 0 where
  pub client_msg_id : String
  pub op : ListOp
  pub accepted : Bool

pub record ListState : Type 0 where
  pub engine : Option OwnerList
  pub pending : List PendingEdit
  pub refusal : Option String

abbrev pub default : ListState
default = record { engine = none; pending = []; refusal = none }

-- `draft::applying`
unfoldable pub applying : List PendingEdit → OwnerList → OwnerList
unfolding apply
applying [] list = list
applying (edit ∷ edits) list = applying edits (apply edit.op edit.client_msg_id list)

unfoldable pub shown : ListState → Option OwnerList
unfolding applying
shown s = elim s.engine [ none ↦ none | some list ↦ some (applying s.pending list) ]

unfoldable pub is_removed : ListState → Bool
is_removed s = elim s.engine [ none ↦ false | some list ↦ is_some list.removed_at ]

abbrev pub edit : ListState → ListOp → String → ListState
edit s op client_msg_id = record s {
  pending = s.pending ++ record { client_msg_id = client_msg_id; op = op; accepted = false } ∷ [];
  refusal = none;
}

abbrev pub refuse : ListState → String → ListState
refuse s sentence = record s { refusal = some sentence }

abbrev pub has_id : String → PendingEdit → Bool
has_id client_msg_id edit = str_eq edit.client_msg_id client_msg_id

abbrev pub taken : PendingEdit → PendingEdit
taken edit = record edit { accepted = true }

unfoldable pub accepted : ListState → String → ListState
unfolding update_first
accepted s client_msg_id = record s {
  pending = update_first (has_id client_msg_id) taken s.pending;
}

-- `made.contains_key`, of a map in its entries
unfoldable pub names : List (String × String) → String → Bool
names made client_msg_id = any (λ entry. str_eq entry.0 client_msg_id) made

-- Whether the list held is newer than one that comes.
abbrev pub is_newer : Option OwnerList → OwnerList → Bool
is_newer none list = false
is_newer (some held) list = ltb list.rev held.rev

-- The edits that a list leaves drawn over it.
unfoldable pub is_left : List (String × String) → PendingEdit → Bool
unfolding names
is_left made edit = not edit.accepted && not (names made edit.client_msg_id)

unfoldable pub received : ListState → OwnerList → List (String × String) → ListState × Bool
unfolding names is_left filter
received s list made =
    if is_newer s.engine list
    then (s, false)
    else (record s { engine = some list; pending = filter (is_left made) s.pending }, true)

unfoldable pub dropped : ListState → String → ListState
unfolding filter
dropped s client_msg_id = record s {
  pending = filter (λ edit. not (has_id client_msg_id edit)) s.pending;
}

unfoldable pub refused : ListState → String → String → ListState
unfolding dropped
refused s client_msg_id sentence = refuse (dropped s client_msg_id) sentence
