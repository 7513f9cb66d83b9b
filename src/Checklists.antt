-- ===== src/Checklists.antt =====
-- The owner's lists as the chat draws them (desktop/core/src/checklists.rs): a list's rows, its
-- parts in order, and the list as text.
pub mod Draft
pub mod Parts
pub mod State
pub mod Index
pub mod Library
pub mod Removals
pub mod Routing
pub mod Calls
pub mod Mirror
pub mod Taken
pub mod Frames
pub mod Kept
mod Tests
pub mod Bounds
pub mod Cards
pub mod Pane
use fermix_linux.Base.{
  ℕ, suc, ◌+◌, Bool, true, false, not, ◌&&◌, ◌||◌, List, [], ◌∷◌, ◌++◌, Option, none, some, is_some,
  String, ◌+++◌, str_eq, if◌then◌else◌, length, is_empty, filter, ◌==◌,
}
use Prim.Native.Char.{code}
use fermix_linux.Chat.Wire.Lists.{ListRow, OwnerList}

abbrev pub lists_since : ℕ
lists_since = 6

abbrev pub item : String
item = "item"

abbrev pub section : String
section = "section"

-- A list that a reply's turn read or changed.
pub record ListRef : Type 0 where
  pub list_id : String
  pub title : String
  pub rows : List String

abbrev pub is_item : ListRow → Bool
is_item row = str_eq row.kind item

abbrev pub is_section : ListRow → Bool
is_section row = str_eq row.kind section

-- `done == Some(true)`
abbrev pub marked : Option Bool → Bool
marked (some true) = true
marked _ = false

abbrev pub is_done : ListRow → Bool
is_done row = is_item row && marked row.done

unfoldable pub items : List ListRow → List ListRow
unfolding filter
items rows = filter is_item rows

unfoldable pub open_count : OwnerList → ℕ
unfolding items filter
open_count list = length (filter (λ row. not (is_done row)) (items list.rows))

unfoldable pub done_count : OwnerList → ℕ
unfolding items filter
done_count list = length (filter is_done (items list.rows))

-- One part that a list is drawn in.
pub record Section : Type 0 where
  pub heading : Option ListRow
  pub items : List ListRow

abbrev pub keep : List Section → Section → List Section
keep parts part =
    if is_some part.heading || not (is_empty part.items) then parts ++ part ∷ [] else parts

-- The loop over the rows, with the parts so far and the current one.
unfoldable pub sections_from : List Section → Section → List ListRow → List Section
sections_from parts current [] = keep parts current
sections_from parts current (row ∷ rows) =
    let at_heading =
      sections_from (keep parts current) (record { heading = some row; items = [] }) rows in
    let at_item = sections_from parts (record current { items = current.items ++ row ∷ [] }) rows in
    let past = sections_from parts current rows in
    if is_section row then at_heading else if is_item row then at_item else past

abbrev pub sections : List ListRow → List Section
sections rows = sections_from [] (record { heading = none; items = [] }) rows

-- `str::split('\n')`
abbrev onto_first : String → List String → List String
onto_first front [] = front ∷ []
onto_first front (line ∷ lines) = (front +++ line) ∷ lines

unfoldable pub split_lines : String → List String
split_lines String.[] = "" ∷ []
split_lines (String.◌∷◌ c s) =
    let rest = split_lines s in
    if code c == 10 then "" ∷ rest else onto_first (String.◌∷◌ c "") rest

-- `lines.join("\n")`
unfoldable pub join_lines : List String → String
join_lines [] = ""
join_lines (line ∷ []) = line
join_lines (line ∷ next ∷ lines) = line +++ "\n" +++ join_lines (next ∷ lines)

unfoldable pub indented : List String → List String
indented [] = []
indented (line ∷ lines) = ("  " +++ line) ∷ indented lines

-- The lines of a note, each indented.
abbrev pub note_lines : Option String → List String
note_lines none = []
note_lines (some note) = indented (split_lines note)

unfoldable pub item_lines : ListRow → List String
unfolding indented split_lines
item_lines row =
    ("- [" +++ (if is_done row then "x" else " ") +++ "] " +++ row.text) ∷ note_lines row.note

unfoldable pub items_lines : List ListRow → List String
unfolding item_lines
items_lines [] = []
items_lines (row ∷ rows) = item_lines row ++ items_lines rows

abbrev pub heading_lines : Option ListRow → List String
heading_lines none = []
heading_lines (some row) = "" ∷ ("## " +++ row.text) ∷ []

unfoldable pub sections_lines : List Section → List String
unfolding items_lines
sections_lines [] = []
sections_lines (part ∷ parts) =
    heading_lines part.heading ++ items_lines part.items ++ sections_lines parts

unfoldable pub markdown : OwnerList → String
unfolding sections_lines sections_from join_lines
markdown list = join_lines (("# " +++ list.title) ∷ sections_lines (sections list.rows))
