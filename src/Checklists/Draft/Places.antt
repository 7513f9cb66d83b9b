-- ===== src/Checklists/Draft/Places.antt =====
-- Where an add or a move lands (desktop/core/src/checklists/draft.rs).
use fermix_linux.Base.{
  ℕ, ◌+◌, ◌≤◌, ◌<◌, ◌≡◌, refl, Bool, List, [], ◌∷◌, Option, none, some, arith, length, length-drop,
  drop, String, Option-cases, inl, inr,
}
use fermix_linux.Chat.Wire.Lists.{ListRow}
use fermix_linux.Checklists.{is_section}
use fermix_linux.Checklists.Draft.{
  Place, position, section_end, first_group_end, place_index, place_index_of, named_at, place_row,
  heading_index, is_row,
}

-- The place of what is found is within the list, and what is there passes the test.
pub position-lt {ℓ} :
    {A : Type ℓ} (test : A → Bool) (xs : List A) (i : ℕ) → position test xs ≡ some i → i < length xs
unfolding position
position-lt test [] i h = ground (arith, h)
position-lt test (x ∷ xs) i h = elim (Option-cases (position test xs)) [
  | inl e ↦ ground (arith, e, h)
  | inr (j, e) ↦ ground (arith, e, h, position-lt test xs j e)
]

section_end_le :
    (rows : List ListRow) (at : ℕ) → at < length rows → section_end rows at ≤ length rows
unfolding section_end
section_end_le rows at h = elim (Option-cases (position is_section (drop (at + 1) rows))) [
  | inl e ↦ ground (arith, e)
  | inr (j, e) ↦
      ground
        (arith, e, h, position-lt is_section (drop (at + 1) rows) j e, length-drop (at + 1) rows)
]

first_group_end_le : (rows : List ListRow) → first_group_end rows ≤ length rows
unfolding first_group_end
first_group_end_le [] = ground arith
first_group_end_le (row ∷ rows) = elim (Option-cases (position is_section (row ∷ rows))) [
  | inl e ↦ ground (arith, e, section_end_le (row ∷ rows) 0)
  | inr (j, e) ↦
      ground (arith, e, section_end_le (row ∷ rows) 0, position-lt is_section (row ∷ rows) j e)
]

named_at_lt :
    (place : Option Place) (rows : List ListRow) (i : ℕ)
    → named_at place rows ≡ some i
    → i < length rows
unfolding position
named_at_lt none rows i h = ground (arith, h)
named_at_lt (some place) rows i h = position-lt (is_row (place_row place)) rows i h

place_index_of_le :
    (place : Option Place) (named : Option ℕ) (rows : List ListRow)
    → ((i : ℕ) → named ≡ some i → i < length rows)
    → place_index_of place named rows ≤ length rows
unfolding place_index_of
place_index_of_le (some (Place.section id)) (some at) rows h = section_end_le rows at (h at refl)
place_index_of_le (some (Place.after id)) (some row) rows h = ground (arith, h row refl)
place_index_of_le (some (Place.section id)) none rows h = first_group_end_le rows
place_index_of_le (some (Place.after id)) none rows h = first_group_end_le rows
place_index_of_le none (some at) rows h = first_group_end_le rows
place_index_of_le none none rows h = first_group_end_le rows

heading_index_le :
    (after : Option String) (rows : List ListRow) → heading_index after rows ≤ length rows
unfolding position
heading_index_le none rows = ground arith
heading_index_le (some id) rows = elim (Option-cases (position (is_row id) rows)) [
  | inl e ↦ ground (arith, e)
  | inr (j, e) ↦ ground (arith, e, position-lt (is_row id) rows j e)
]

-- Wherever an op puts a row, the place is within the list or at its end: an add's and a move's,
-- whatever row its place names, and a heading's.
pub place_index_le :
    (place : Option Place) (after : Option String) (rows : List ListRow)
    → (place_index place rows ≤ length rows) × (heading_index after rows ≤ length rows)
unfolding place_index
place_index_le place after rows = (
  place_index_of_le place (named_at place rows) rows (named_at_lt place rows),
  heading_index_le after rows,
)
