-- ===== src/Checklists/Cards.antt =====
-- What a reply's lists card draws (desktop/core/src/checklists/cards.rs).
pub mod Live
use fermix_linux.Base.{
  ℕ, ◌+◌, ◌-◌, Bool, true, false, not, ◌&&◌, ◌||◌, List, [], ◌∷◌, ◌++◌, Option, none, some, String,
  str_eq, str_mem, ltb, if◌then◌else◌, length, filter, find, take, all, map, is_empty, insert_seq,
  min,
}
use fermix_linux.Chat.Wire.Lists.{ListRow, OwnerList}
use fermix_linux.Checklists.{ListRef, is_item, is_done, items}

abbrev pub one_list_rows : ℕ
one_list_rows = 4

abbrev pub group_rows : ℕ
group_rows = 3

abbrev pub group_lists : ℕ
group_lists = 3

abbrev pub drawn : List ListRef → List ListRef
drawn refs = take (min (length refs) group_lists) refs

abbrev pub ids_of : List ListRef → List String
ids_of refs = map (λ ref. ref.list_id) (drawn refs)

-- The loop over the cards, newest first, with the lists that newer cards draw.
unfoldable pub live_from : List String → List (ℕ × List ListRef) → List ℕ
unfolding str_mem insert_seq
live_from newer [] = []
live_from newer ((seq, refs) ∷ cards) =
    let ids = ids_of refs in
    let rest = live_from (ids ++ newer) cards in
    let past = live_from newer cards in
    if is_empty refs
    then past
    else if all (λ id. not (str_mem id newer)) ids
    then insert_seq seq rest
    else rest

-- `rev`
unfoldable pub newest_first {ℓ} : {A : Type ℓ} → List A → List A
newest_first [] = []
newest_first (card ∷ cards) = newest_first cards ++ card ∷ []

unfoldable pub live : List (ℕ × List ListRef) → List ℕ
unfolding live_from newest_first
live cards = live_from [] (newest_first cards)

pub record OneList : Type 0 where
  pub rows : List ListRow
  pub more : ℕ
  pub fewer : Bool

-- The items drawn as open: those not done, and those that settle.
unfoldable pub open_rows : OwnerList → List String → List ListRow
unfolding items filter str_mem
open_rows list settling =
    filter (λ row. not (is_done row) || str_mem row.row_id settling) (items list.rows)

abbrev pub is_touched : List String → ListRow → Bool
unfolding str_mem
is_touched touched row = str_mem row.row_id touched

unfoldable pub touched_first : List String → List ListRow → List ListRow
unfolding filter str_mem
touched_first touched rows =
    filter (is_touched touched) rows ++ filter (λ row. not (is_touched touched row)) rows

unfoldable pub one_list : OwnerList → List String → List String → Bool → OneList
unfolding open_rows touched_first
one_list list touched settling expanded =
    let open_ = open_rows list settling in
    let limit = if expanded then length open_ else one_list_rows in
    let rows = take limit (touched_first touched open_) in
    record {
      rows = rows;
      more = length open_ - length rows;
      fewer = expanded && ltb one_list_rows (length open_);
    }

pub record Group : Type 0 where
  pub list : ListRef
  pub rows : List ListRow

pub record Groups : Type 0 where
  pub groups : List Group
  pub more_lists : ℕ

-- `filter_map` of the row that an id names
unfoldable pub rows_named : List String → List ListRow → List ListRow
unfolding find
rows_named [] rows = []
rows_named (id ∷ ids) rows =
    let rest = rows_named ids rows in
    elim (find (λ row. str_eq row.row_id id && is_item row) rows) [
      | none ↦ rest
      | some row ↦ row ∷ rest
    ]

abbrev pub rows_now : Option OwnerList → List ListRow
rows_now none = []
rows_now (some list) = list.rows

unfoldable pub touched_rows : ListRef → Option OwnerList → List ListRow
unfolding rows_named
touched_rows ref now = take group_rows (rows_named ref.rows (rows_now now))

abbrev pub group_of : (String → Option OwnerList) → ListRef → Group
unfolding touched_rows
group_of lists ref = record { list = ref; rows = touched_rows ref (lists ref.list_id) }

unfoldable pub groups : List ListRef → (String → Option OwnerList) → Groups
unfolding touched_rows
groups refs lists = record {
  groups = map (group_of lists) (drawn refs);
  more_lists = length refs - group_lists;
}
