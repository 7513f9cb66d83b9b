-- ===== src/Checklists/Draft.antt =====
-- An edit drawn before the engine confirms it (desktop/core/src/checklists/draft.rs).
pub mod Places
pub mod Others
use fermix_linux.Base.{
  ℕ, suc, ◌+◌, Bool, true, false, not, ◌&&◌, ◌||◌, List, [], ◌∷◌, ◌++◌, Option, none, some, is_some,
  String, ◌+++◌, str_eq, starts_with, if◌then◌else◌, length, filter, take, drop, get_elem?,
  update_first, trim, trim_start, trim_end, str_is_empty,
}
use fermix_linux.Chat.Wire.Lists.{ListRow, OwnerList, ListOp}
use fermix_linux.Checklists.{item, section as section_kind, is_item, is_section, is_done}

abbrev pub local_prefix : String
local_prefix = "local:"

abbrev pub local_row_id : String → String
local_row_id client_msg_id = local_prefix +++ client_msg_id

abbrev pub is_local : String → Bool
is_local row_id = starts_with row_id local_prefix

pub data Place : Type 0 where
  section after : String → Place

abbrev pub place_of : Option String → Option String → Option Place
place_of (some id) after_id = some (Place.section id)
place_of none (some id) = some (Place.after id)
place_of none none = none

abbrev pub fields : Option Place → Option String × Option String
fields (some (Place.section id)) = (some id, none)
fields (some (Place.after id)) = (none, some id)
fields none = (none, none)

abbrev pub place_row : Place → String
place_row (Place.section id) = id
place_row (Place.after id) = id

-- `iter().position`
unfoldable pub position {ℓ} : {A : Type ℓ} → (A → Bool) → List A → Option ℕ
position test [] = none
position test (x ∷ xs) =
    let rest = position test xs in
    if test x then some 0 else elim rest [ none ↦ none | some i ↦ some (suc i) ]

-- `unwrap_or`
abbrev pub or_else {ℓ} : {A : Type ℓ} → Option A → A → A
or_else none y = y
or_else (some x) y = x

-- `Vec::insert`, at an index no greater than the length
abbrev pub insert_at {ℓ} : {A : Type ℓ} → ℕ → A → List A → List A
insert_at i x xs = take i xs ++ x ∷ drop i xs

-- `Vec::remove`, at an index below the length
abbrev pub remove_at {ℓ} : {A : Type ℓ} → ℕ → List A → List A
remove_at i xs = take i xs ++ drop (suc i) xs

abbrev pub is_row : String → ListRow → Bool
is_row row_id row = str_eq row.row_id row_id

-- The item that an op names.
abbrev pub is_named : String → ListRow → Bool
is_named row_id row = str_eq row.row_id row_id && is_item row

unfoldable pub section_end : List ListRow → ℕ → ℕ
unfolding position
section_end rows heading = elim (position is_section (drop (heading + 1) rows)) [
  | none ↦ length rows
  | some past ↦ heading + 1 + past
]

unfoldable pub first_group_end : List ListRow → ℕ
unfolding position section_end
first_group_end [] = 0
first_group_end (first ∷ rows) =
    if is_section first
    then section_end (first ∷ rows) 0
    else or_else (position is_section (first ∷ rows)) (length (first ∷ rows))

-- The row that a place names.
abbrev pub named_at : Option Place → List ListRow → Option ℕ
unfolding position
named_at none rows = none
named_at (some place) rows = position (is_row (place_row place)) rows

-- `place_index`, past the match: by the place and the index that it names.
unfoldable pub place_index_of : Option Place → Option ℕ → List ListRow → ℕ
unfolding section_end first_group_end
place_index_of (some (Place.section id)) (some heading) rows = section_end rows heading
place_index_of (some (Place.after id)) (some row) rows = row + 1
place_index_of _ _ rows = first_group_end rows

unfoldable pub place_index : Option Place → List ListRow → ℕ
unfolding place_index_of position
place_index place rows = place_index_of place (named_at place rows) rows

-- `note.filter(|note| !note.is_empty())`
abbrev pub not_empty : Option String → Option String
not_empty none = none
not_empty (some note) = if str_is_empty note then none else some note

abbrev pub local_item : String → String → Option String → ListRow
local_item client_msg_id text note = record {
  row_id = local_row_id client_msg_id;
  kind = item;
  text = text;
  note = not_empty note;
  done = some false;
  done_at = none;
}

-- The heading that `heading` inserts.
abbrev pub local_heading : String → String → ListRow
local_heading client_msg_id text = record {
  row_id = local_row_id client_msg_id;
  kind = section_kind;
  text = text;
  note = none;
  done = none;
  done_at = none;
}

-- The index that `heading` inserts at.
abbrev pub heading_index : Option String → List ListRow → ℕ
unfolding position
heading_index none rows = length rows
heading_index (some id) rows = elim (position (is_row id) rows) [
  | none ↦ length rows
  | some row ↦ row + 1
]

unfoldable pub heading : List ListRow → String → String → Option String → List ListRow
unfolding position
heading rows client_msg_id text after_id =
    insert_at (heading_index after_id rows) (local_heading client_msg_id text) rows

abbrev pub with_done : Bool → ListRow → ListRow
with_done done row = record row { done = some done; done_at = if done then row.done_at else none }

unfoldable pub mark : List ListRow → String → Bool → List ListRow
unfolding update_first
mark rows row_id done = update_first (is_named row_id) (with_done done) rows

abbrev pub new_text : Option String → String → String
new_text none text = text
new_text (some words) text = words

abbrev pub new_note : Option String → Option String → Option String
new_note none was = was
new_note (some words) was = not_empty (some words)

abbrev pub with_words : Option String → Option String → ListRow → ListRow
with_words text note row = record row {
  text = new_text text row.text;
  note = new_note note row.note;
}

unfoldable pub reword : List ListRow → String → Option String → Option String → List ListRow
unfolding update_first
reword rows row_id text memo = update_first (is_named row_id) (with_words text memo) rows

-- `moving`, once the item is found at an index.
unfoldable pub moved_from : List ListRow → ℕ → Option ListRow → Option Place → Bool → List ListRow
unfolding place_index
moved_from rows i none place leaving = rows
moved_from rows i (some row) place leaving =
    let left = remove_at i rows in
    if not leaving && not (is_some place)
    then rows
    else if leaving
    then left
    else insert_at (place_index place left) row left

unfoldable pub moving : List ListRow → String → Option Place → Bool → List ListRow
unfolding position moved_from
moving rows row_id place leaving = elim (position (is_named row_id) rows) [
  | none ↦ rows
  | some i ↦ moved_from rows i (get_elem? rows i) place leaving
]

-- `apply` on the rows.
unfoldable pub apply_rows : ListOp → String → List ListRow → List ListRow
unfolding place_index mark reword moving heading filter
apply_rows (ListOp.add text memo section_id after_id) id rows =
    insert_at (place_index (place_of section_id after_id) rows) (local_item id text memo) rows
apply_rows (ListOp.check row_id) id rows = mark rows row_id true
apply_rows (ListOp.uncheck row_id) id rows = mark rows row_id false
apply_rows (ListOp.edit row_id text memo) id rows = reword rows row_id text memo
apply_rows (ListOp.move row_id section_id after_id to_list_id) id rows =
    moving rows row_id (place_of section_id after_id) (is_some to_list_id)
apply_rows (ListOp.section text after_id) id rows = heading rows id text after_id
apply_rows (ListOp.remove row_id) id rows = filter (λ row. not (is_row row_id row)) rows
apply_rows ListOp.clear_done id rows = filter (λ row. not (is_done row)) rows
apply_rows _ id rows = rows

-- `apply` on the title.
abbrev pub apply_title : ListOp → String → String
apply_title (ListOp.rename text) title = text
apply_title _ title = title

unfoldable pub apply : ListOp → String → OwnerList → OwnerList
unfolding apply_rows
apply op client_msg_id list = record list {
  title = apply_title op list.title;
  rows = apply_rows op client_msg_id list.rows;
}

-- `Option::into_iter`
abbrev pub to_list {ℓ} : {A : Type ℓ} → Option A → List A
to_list none = []
to_list (some x) = x ∷ []

unfoldable pub named_rows : ListOp → List String
named_rows (ListOp.check row_id) = row_id ∷ []
named_rows (ListOp.uncheck row_id) = row_id ∷ []
named_rows (ListOp.remove row_id) = row_id ∷ []
named_rows (ListOp.edit row_id text memo) = row_id ∷ []
named_rows (ListOp.move row_id section_id after_id to_list_id) =
    row_id ∷ (to_list section_id ++ to_list after_id)
named_rows (ListOp.add text memo section_id after_id) = to_list section_id ++ to_list after_id
named_rows (ListOp.section text after_id) = to_list after_id
named_rows (ListOp.restore row_id title) = to_list row_id
named_rows _ = []

-- `!words.trim().is_empty()`
abbrev pub has_words : String → Bool
has_words words = not (str_is_empty (trim words))

unfoldable pub sendable : ListOp → Bool
unfolding trim_start trim_end
sendable (ListOp.create title folder) = has_words title
sendable (ListOp.add text memo section_id after_id) = has_words text
sendable (ListOp.section text after_id) = has_words text
sendable (ListOp.rename text) = has_words text
sendable (ListOp.edit row_id (some words) memo) = has_words words
sendable (ListOp.edit row_id none memo) = is_some memo
sendable _ = true

-- The words that `reworded` saves.
abbrev pub saved_text : String → String → Option String
saved_text words was =
    if not (str_is_empty words) && not (str_eq words was) then some words else none

-- The note that `reworded` saves.
abbrev pub saved_note : Option String → Option String → Option String
unfolding trim_start trim_end
saved_note none was = none
saved_note (some note) was = if str_eq (trim note) (or_else was "") then none else some (trim note)

unfoldable pub reworded : ListRow → String → Option String → Option ListOp
unfolding trim_start trim_end
reworded was words note =
    let text = saved_text (trim words) was.text in
    let kept = saved_note note was.note in
    if not (is_some text) && not (is_some kept)
    then none
    else some (ListOp.edit was.row_id text kept)
