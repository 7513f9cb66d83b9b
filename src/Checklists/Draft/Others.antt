-- ===== src/Checklists/Draft/Others.antt =====
-- The rows that an op leaves as they are (desktop/core/src/checklists/draft.rs).
use fermix_linux.Base.{
  ℕ, zero, suc, ◌≡◌, refl, Bool, true, false, not, List, [], ◌∷◌, ◌++◌, Option, none, some, arith,
  String, get_elem?, filter, update_first, Option-cases, Bool-cases, inl, inr, str_eq_iff, is_some,
}
use fermix_linux.Chat.Wire.Lists.{ListRow, ListOp}
use fermix_linux.Checklists.{is_done}
use fermix_linux.Checklists.Draft.{
  Place, apply_rows, heading, heading_index, insert_at, is_named, is_row, local_heading, local_item,
  local_row_id, mark, moved_from, moving, place_index, place_of, position, remove_at, reword,
  with_done, with_words,
}

filter-append {ℓ} :
    {A : Type ℓ} (test : A → Bool) (xs ys : List A)
    → filter test (xs ++ ys) ≡ filter test xs ++ filter test ys
unfolding filter
filter-append test [] ys = refl
filter-append test (x ∷ xs) ys = ground (arith, filter-append test xs ys)

filter-filter {ℓ} :
    {A : Type ℓ} (test : A → Bool) (xs : List A) → filter test (filter test xs) ≡ filter test xs
unfolding filter
filter-filter test [] = refl
filter-filter test (x ∷ xs) = elim (Bool-cases (test x)) [
  | inl e ↦ ground (arith, e, filter-filter test xs)
  | inr e ↦ ground (arith, e, filter-filter test xs)
]

filter-insert_at {ℓ} :
    {A : Type ℓ} (test : A → Bool) (i : ℕ) (x : A) (xs : List A)
    → test x ≡ false
    → filter test (insert_at i x xs) ≡ filter test xs
unfolding filter
filter-insert_at test zero x xs h = ground (arith, h)
filter-insert_at test (suc i) x [] h = ground (arith, h)
filter-insert_at test (suc i) x (y ∷ xs) h = ground (arith, h, filter-insert_at test i x xs h)

filter-remove_at {ℓ} :
    {A : Type ℓ} (test : A → Bool) (i : ℕ) (x : A) (xs : List A)
    → get_elem? xs i ≡ some x
    → test x ≡ false
    → filter test (remove_at i xs) ≡ filter test xs
unfolding filter
filter-remove_at test i x [] h k = ground (arith, h)
filter-remove_at test zero x (y ∷ xs) h k = ground (arith, h, k)
filter-remove_at test (suc i) x (y ∷ xs) h k =
    ground (arith, h, k, filter-remove_at test i x xs h k)

filter-update_first {ℓ} :
    {A : Type ℓ} (test found : A → Bool) (change : A → A) (xs : List A)
    → ((x : A) → found x ≡ true → test x ≡ false)
    → ((x : A) → found x ≡ true → test (change x) ≡ false)
    → filter test (update_first found change xs) ≡ filter test xs
unfolding filter update_first
filter-update_first test found change [] h k = refl
filter-update_first test found change (x ∷ xs) h k = elim (Bool-cases (found x)) [
  | inl e ↦ ground (arith, e, h x e, k x e)
  | inr e ↦ ground (arith, e, filter-update_first test found change xs h k)
]

-- What is found is there.
position-get_elem? {ℓ} :
    {A : Type ℓ} (test : A → Bool) (xs : List A) (i : ℕ) (x : A)
    → position test xs ≡ some i
    → get_elem? xs i ≡ some x
    → test x ≡ true
unfolding position
position-get_elem? test [] i x h k = ground (arith, h)
position-get_elem? test (y ∷ xs) zero x h k = elim (Option-cases (position test xs)) [
  | inl e ↦ ground (arith, e, h, k)
  | inr (j, e) ↦ ground (arith, e, h, k)
]
position-get_elem? test (y ∷ xs) (suc i) x h k = elim (Option-cases (position test xs)) [
  | inl e ↦ ground (arith, e, h, k)
  | inr (j, e) ↦ ground (arith, e, h, k, position-get_elem? test xs i x)
]

-- The rows that an op leaves: all but the one that it names or adds, or, of Clear done, the items
-- that are not done.
unfoldable pub leaves : ListOp → String → ListRow → Bool
leaves (ListOp.add text memo section_id after_id) id row = not (is_row (local_row_id id) row)
leaves (ListOp.section text after_id) id row = not (is_row (local_row_id id) row)
leaves (ListOp.check row_id) id row = not (is_row row_id row)
leaves (ListOp.uncheck row_id) id row = not (is_row row_id row)
leaves (ListOp.edit row_id text memo) id row = not (is_row row_id row)
leaves (ListOp.move row_id section_id after_id to_list_id) id row = not (is_row row_id row)
leaves (ListOp.remove row_id) id row = not (is_row row_id row)
leaves ListOp.clear_done id row = not (is_done row)
leaves _ id row = true

abbrev is_other : String → ListRow → Bool
is_other row_id row = not (is_row row_id row)

is_named-is_other :
    (row_id : String) (row : ListRow) → is_named row_id row ≡ true → is_other row_id row ≡ false
is_named-is_other row_id row h = ground (arith, h)

is_other-local : (row : ListRow) → is_other row.row_id row ≡ false
is_other-local row = ground (arith, (str_eq_iff row.row_id row.row_id).1 refl)

mark-others :
    (rows : List ListRow) (row_id : String) (done : Bool)
    → filter (is_other row_id) (mark rows row_id done) ≡ filter (is_other row_id) rows
unfolding mark
mark-others rows row_id done =
    filter-update_first (is_other row_id) (is_named row_id) (with_done done) rows
      (is_named-is_other row_id) (is_named-is_other row_id)

reword-others :
    (rows : List ListRow) (row_id : String) (text memo : Option String)
    → filter (is_other row_id) (reword rows row_id text memo) ≡ filter (is_other row_id) rows
unfolding reword
reword-others rows row_id text memo =
    filter-update_first (is_other row_id) (is_named row_id) (with_words text memo) rows
      (is_named-is_other row_id) (is_named-is_other row_id)

moved_from-others :
    (rows : List ListRow) (row_id : String) (i : ℕ) (at : Option ListRow) (place : Option Place)
    (leaving : Bool)
    → get_elem? rows i ≡ at
    → ((row : ListRow) → at ≡ some row → is_other row_id row ≡ false)
    → filter (is_other row_id) (moved_from rows i at place leaving) ≡ filter (is_other row_id) rows
unfolding moved_from
moved_from-others rows row_id i none place leaving h k = refl
moved_from-others rows row_id i (some row) place leaving h k =
    let left = remove_at i rows in
    ground (
      arith,
      filter-remove_at (is_other row_id) i row rows h (k row refl),
      filter-insert_at (is_other row_id) (place_index place left) row left (k row refl),
    )

moving-others :
    (rows : List ListRow) (row_id : String) (place : Option Place) (leaving : Bool)
    → filter (is_other row_id) (moving rows row_id place leaving) ≡ filter (is_other row_id) rows
unfolding moving
moving-others rows row_id place leaving = elim (Option-cases (position (is_named row_id) rows)) [
  | inl e ↦ ground (arith, e)
  | inr (i, e) ↦ ground (
    arith,
    e,
    moved_from-others rows row_id i (get_elem? rows i) place leaving refl (λ row h.
        is_named-is_other row_id row (position-get_elem? (is_named row_id) rows i row e h)),
  )
]

-- An op, drawn, leaves every row as it was, and these rows in their order, but the one that it
-- names or adds or, of Clear done, the items marked done; an op that is the engine's to work out
-- leaves all of them.
pub apply_rows-others :
    (op : ListOp) (id : String) (rows : List ListRow)
    → filter (leaves op id) (apply_rows op id rows) ≡ filter (leaves op id) rows
unfolding apply_rows leaves heading
apply_rows-others (ListOp.add text memo section_id after_id) id rows =
    filter-insert_at (is_other (local_row_id id)) (place_index (place_of section_id after_id) rows)
      (local_item id text memo) rows (is_other-local (local_item id text memo))
apply_rows-others (ListOp.section text after_id) id rows =
    filter-insert_at (is_other (local_row_id id)) (heading_index after_id rows)
      (local_heading id text) rows (is_other-local (local_heading id text))
apply_rows-others (ListOp.check row_id) id rows = mark-others rows row_id true
apply_rows-others (ListOp.uncheck row_id) id rows = mark-others rows row_id false
apply_rows-others (ListOp.edit row_id text memo) id rows = reword-others rows row_id text memo
apply_rows-others (ListOp.move row_id section_id after_id to_list_id) id rows =
    moving-others rows row_id (place_of section_id after_id) (is_some to_list_id)
apply_rows-others (ListOp.remove row_id) id rows = filter-filter (is_other row_id) rows
apply_rows-others ListOp.clear_done id rows = filter-filter (λ row. not (is_done row)) rows
apply_rows-others (ListOp.create title folder) id rows = refl
apply_rows-others (ListOp.folder name) id rows = refl
apply_rows-others (ListOp.rename text) id rows = refl
apply_rows-others ListOp.remove_list id rows = refl
apply_rows-others (ListOp.restore row_id title) id rows = refl
