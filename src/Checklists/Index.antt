-- ===== src/Checklists/Index.antt =====
-- The index of the owner's lists and the picker's order (desktop/core/src/checklists/index.rs).
use fermix_linux.Base.{
  Bool, true, false, not, ◌&&◌, List, [], ◌∷◌, ◌++◌, Option, none, some, is_some, String, str_eq,
  str_mem, if◌then◌else◌, filter, find, any, all, map, is_empty, ◌>>=◌,
}
use fermix_linux.Chat.Wire.Lists.{ListEntry}

pub record Created : Type 0 where
  pub client_msg_id : String
  pub list_id : String

pub record Index : Type 0 where
  pub served : Bool
  pub entries : Option (List ListEntry)
  pub refusal : Option String
  pub created : Option Created

abbrev pub default : Index
default = record { served = false; entries = none; refusal = none; created = none }

abbrev pub is_list : String → ListEntry → Bool
is_list list_id entry = str_eq entry.list_id list_id

unfoldable pub entry : Index → String → Option ListEntry
unfolding find
entry index list_id = index.entries >>= λ entries. find (is_list list_id) entries

abbrev pub lacks : Index → String → Bool
lacks index list_id = elim index.entries [
  | none ↦ false
  | some entries ↦ not (any (is_list list_id) entries)
]

-- `str::to_lowercase` is a parameter.
unfoldable pub titled : (String → String) → Index → String → Option ListEntry
unfolding find
titled to_lowercase index title = index.entries >>= λ entries.
    find (λ entry. str_eq (to_lowercase entry.title) (to_lowercase title)) entries

-- `Option::or`
abbrev or {ℓ} : {A : Type ℓ} → Option A → Option A → Option A
or none y = y
or (some x) y = some x

abbrev first_of {ℓ} : {A : Type ℓ} → List A → Option A
first_of [] = none
first_of (x ∷ xs) = some x

-- `shown`, of the entries.
unfoldable pub shown_of : Option String → List ListEntry → Option ListEntry
unfolding find
shown_of asked entries =
    or
      (or (asked >>= λ id. find (is_list id) entries)
        (find (λ entry. is_some entry.folder) entries))
      (first_of entries)

unfoldable pub shown : Index → Option String → Option ListEntry
unfolding shown_of
shown index asked = index.entries >>= λ entries. shown_of asked entries

abbrev pub serve : Index → Bool → Index
serve index served = record index { served = served }

abbrev pub show : Index → List ListEntry → Index
show index entries = record index { entries = some entries; refusal = none }

abbrev pub refuse : Index → Option String → Index
refuse index sentence = record index { refusal = sentence }

abbrev pub made : Index → Created → Index
made index created = record index { created = some created }

pub record Folder : Type 0 where
  pub name : String
  pub lists : List ListEntry

pub record Folders : Type 0 where
  pub folders : List Folder
  pub loose : List ListEntry

-- `entry.folder.as_deref() == folder`
abbrev pub same_folder : Option String → Option String → Bool
same_folder none none = true
same_folder (some a) (some b) = str_eq a b
same_folder _ _ = false

abbrev pub is_in : Option String → ListEntry → Bool
is_in folder entry = same_folder entry.folder folder

unfoldable pub in_folder : List ListEntry → Option String → List ListEntry
unfolding filter
in_folder entries folder = filter (is_in folder) entries

-- The loop over the folders that the entries name, with the names so far.
unfoldable pub folder_names : List String → List ListEntry → List String
unfolding str_mem
folder_names names [] = names
folder_names names (entry ∷ entries) = elim entry.folder [
  | none ↦ folder_names names entries
  | some name ↦ folder_names (if str_mem name names then names else names ++ name ∷ []) entries
]

abbrev pub folder_of : List ListEntry → String → Folder
unfolding in_folder
folder_of entries name = record { name = name; lists = in_folder entries (some name) }

unfoldable pub folders_of : List ListEntry → Folders
unfolding folder_names in_folder
folders_of entries = record {
  folders = map (folder_of entries) (folder_names [] entries);
  loose = in_folder entries none;
}

unfoldable pub folders : Index → Folders
unfolding folders_of
folders index = elim index.entries [ none ↦ folders_of [] | some entries ↦ folders_of entries ]

abbrev pub names : Folders → List String
names fs = map (λ folder. folder.name) fs.folders

-- The lists of a part of the picker but one.
unfoldable pub others : String → List ListEntry → List ListEntry
unfolding filter
others list_id lists = filter (λ entry. not (is_list list_id entry)) lists

abbrev pub folder_without : String → Folder → Folder
unfolding others
folder_without list_id folder = record folder { lists = others list_id folder.lists }

unfoldable pub without : Folders → String → Folders
unfolding others filter
without fs list_id = record {
  folders =
      filter (λ folder. not (is_empty folder.lists)) (map (folder_without list_id) fs.folders);
  loose = others list_id fs.loose;
}

abbrev pub has_none : Folders → Bool
has_none fs = is_empty fs.loose && all (λ folder. is_empty folder.lists) fs.folders
