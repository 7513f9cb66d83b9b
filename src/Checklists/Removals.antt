-- ===== src/Checklists/Removals.antt =====
-- The removals made here, which Undo takes back (desktop/core/src/checklists/removals.rs).
pub mod Once
pub mod Taken
pub mod Runs
mod Tests
use fermix_linux.Base.{
  ℕ, ◌+◌, Bool, true, false, not, ◌&&◌, List, [], ◌∷◌, ◌++◌, Option, none, some, String, str_eq,
  ◌==◌, leb, if◌then◌else◌, length, filter, find, drop, ◌>>=◌,
}
use fermix_linux.Chat.Wire.Lists.{ListOp}
use fermix_linux.Chat.Wire.Requests.{ClientEvent}
use fermix_linux.Checklists.Library.{Library}
use fermix_linux.Checklists.Library.Edits.{remove as remove_edit, edit}

abbrev pub max_kept : ℕ
max_kept = 20

pub record Removal : Type 0 where
  pub token : ℕ
  pub list_id : String
  pub row_id : Option String
  pub text : String

abbrev pub restore_op : Removal → ListOp
restore_op removal = ListOp.restore removal.row_id none

pub record Removals : Type 0 where
  pub made : ℕ
  pub kept : List Removal

abbrev pub default : Removals
default = record { made = 0; kept = [] }

-- `==` of two rows named or not
abbrev pub same_row : Option String → Option String → Bool
same_row none none = true
same_row (some a) (some b) = str_eq a b
same_row _ _ = false

abbrev pub is_of : String → Option String → Removal → Bool
is_of list_id row_id removal = str_eq removal.list_id list_id && same_row removal.row_id row_id

-- Past 20 kept, the oldest goes.
unfoldable pub drop_first : List Removal → List Removal
drop_first kept = if leb (length kept) max_kept then kept else drop 1 kept

abbrev pub removal_of : ℕ → String → Option String → String → Removal
removal_of token list_id row_id text = record {
  token = token;
  list_id = list_id;
  row_id = row_id;
  text = text;
}

unfoldable pub made : Removals → String → Option String → String → Removals × ℕ
unfolding drop_first filter
made rs list_id row_id text =
    let left = filter (λ removal. not (is_of list_id row_id removal)) rs.kept in
    let token = rs.made + 1 in
    (
      record {
        made = token;
        kept = drop_first (left ++ removal_of token list_id row_id text ∷ []);
      },
      token,
    )

unfoldable pub last_token : List Removal → Option ℕ
last_token [] = none
last_token (removal ∷ []) = some removal.token
last_token (removal ∷ next ∷ kept) = last_token (next ∷ kept)

abbrev pub newest : Removals → Option ℕ
unfolding last_token
newest rs = last_token rs.kept

-- `position`, and the removal at it removed
unfoldable pub take_token : ℕ → List Removal → Option (Removal × List Removal)
take_token token [] = none
take_token token (removal ∷ kept) =
    let later = take_token token kept in
    if removal.token == token
    then some (removal, kept)
    else elim later [ none ↦ none | some (out, rest) ↦ some (out, removal ∷ rest) ]

unfoldable pub take_back : Removals → ℕ → Removals × Option Removal
unfolding take_token
take_back rs token = elim (take_token token rs.kept) [
  | none ↦ (rs, none)
  | some (removal, rest) ↦ (record rs { kept = rest }, some removal)
]

-- `remove`, past what the library made of it.
unfoldable pub kept_removal :
    Removals
    → String
    → Option String
    → String
    → Option (List ClientEvent)
    → Removals × Option (ℕ × List ClientEvent)
unfolding made
kept_removal rs list_id row_id text none = (rs, none)
kept_removal rs list_id row_id text (some sent) =
    let next = made rs list_id row_id text in (next.0, some (next.1, sent))

unfoldable pub remove :
    Removals
    → Library
    → String
    → Option String
    → String
    → String
    → (Removals × Library) × Option (ℕ × List ClientEvent)
unfolding remove_edit kept_removal
remove rs lib list_id row_id text client_msg_id =
    let step = remove_edit lib list_id row_id client_msg_id in
    let next = kept_removal rs list_id row_id text step.1 in ((next.0, step.0), next.1)

-- `undo`, past the removal taken back.
unfoldable pub undo_taken :
    Removals
    → Library
    → Option Removal
    → String
    → (Removals × Library) × Option (Removal × List ClientEvent)
unfolding edit
undo_taken rs lib none client_msg_id = ((rs, lib), none)
undo_taken rs lib (some removal) client_msg_id =
    let step = edit lib removal.list_id (restore_op removal) client_msg_id in
    ((rs, step.0), some (removal, step.1))

-- `token.or_else(|| removals.newest())`
abbrev pub token_or : Option ℕ → Option ℕ → Option ℕ
token_or none newest = newest
token_or (some token) newest = some token

unfoldable pub undo :
    Removals
    → Library
    → Option ℕ
    → String
    → (Removals × Library) × Option (Removal × List ClientEvent)
unfolding take_back undo_taken last_token
undo rs lib token client_msg_id = elim (token_or token (newest rs)) [
  | none ↦ ((rs, lib), none)
  | some token ↦ let taken = take_back rs token in undo_taken taken.0 lib taken.1 client_msg_id
]

-- The removal made here of a row or a list, taken back where it is still kept.
unfoldable pub taken_own : Removals → String → Option String → Removals × Option Removal
unfolding take_back find
taken_own rs list_id row_id = elim (find (is_of list_id row_id) rs.kept) [
  | none ↦ (rs, none)
  | some removal ↦ take_back rs removal.token
]

unfoldable pub restore :
    Removals
    → Library
    → String
    → Option String
    → String
    → (Removals × Library) × (Option Removal × List ClientEvent)
unfolding taken_own edit
restore rs lib list_id row_id client_msg_id =
    let taken = taken_own rs list_id row_id in
    let step = edit lib list_id (ListOp.restore row_id none) client_msg_id in
    ((taken.0, step.0), (taken.1, step.1))
