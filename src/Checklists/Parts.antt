-- ===== src/Checklists/Parts.antt =====
-- The parts that a list is drawn in hold its rows (desktop/core/src/checklists.rs).
use Prim.{tt}
use fermix_linux.Base.{
  ◌≡◌, refl, Bool, true, not, ◌||◌, List, [], ◌∷◌, ◌++◌, Option, none, some, is_some, arith,
  is_empty, filter, All, append_assoc, append-nil, Bool-cases, inl, inr,
}
use fermix_linux.Chat.Wire.Lists.{ListRow}
use fermix_linux.Checklists.{Section, is_item, is_section, keep, sections, sections_from}

abbrev heading_rows : Option ListRow → List ListRow
heading_rows none = []
heading_rows (some row) = row ∷ []

abbrev part_rows : Section → List ListRow
part_rows part = heading_rows part.heading ++ part.items

-- The rows of the parts, each heading before its items.
unfoldable pub rows_of : List Section → List ListRow
rows_of [] = []
rows_of (part ∷ parts) = part_rows part ++ rows_of parts

-- A row that a list draws.
abbrev pub is_drawn : ListRow → Bool
is_drawn row = is_section row || is_item row

abbrev pub IsHeading : Option ListRow → Type 0
IsHeading none = Unit
IsHeading (some row) = is_section row ≡ true

abbrev pub IsItem : ListRow → Type 0
IsItem row = is_item row ≡ true

-- A part has a heading or an item, its heading is one, and its items are items.
unfoldable pub IsPart : Section → Type 0
IsPart part =
    ((is_some part.heading || not (is_empty part.items)) ≡ true)
    × (IsHeading part.heading × All IsItem part.items)

rows_of-append :
    (parts others : List Section) → rows_of (parts ++ others) ≡ rows_of parts ++ rows_of others
unfolding rows_of
rows_of-append [] others = refl
rows_of-append (part ∷ parts) others = ground (
  arith,
  rows_of-append parts others,
  append_assoc (part_rows part) (rows_of parts) (rows_of others),
)

All-append {ℓ κ} :
    {A : Type ℓ} (P : A → Type κ) (xs ys : List A) → All P xs → All P ys → All P (xs ++ ys)
All-append P [] ys h k = k
All-append P (x ∷ xs) ys h k = (h.0, All-append P xs ys h.1 k)

abbrev part_of : Option ListRow → List ListRow → Section
part_of head rows = record { heading = head; items = rows }

rows_of-keep :
    (parts : List Section) (head : Option ListRow) (rows : List ListRow)
    → rows_of (keep parts (part_of head rows)) ≡ rows_of parts ++ part_rows (part_of head rows)
unfolding rows_of
rows_of-keep parts (some row) rows =
    ground (arith, rows_of-append parts (part_of (some row) rows ∷ []), append-nil (row ∷ rows))
rows_of-keep parts none [] = ground (arith, append-nil (rows_of parts))
rows_of-keep parts none (row ∷ rows) =
    ground (arith, rows_of-append parts (part_of none (row ∷ rows) ∷ []), append-nil (row ∷ rows))

keep-IsPart :
    (parts : List Section) (head : Option ListRow) (rows : List ListRow)
    → All IsPart parts
    → IsHeading head
    → All IsItem rows
    → All IsPart (keep parts (part_of head rows))
unfolding IsPart
keep-IsPart parts (some row) rows h at k =
    All-append IsPart parts (part_of (some row) rows ∷ []) h ((refl, (at, k)), tt)
keep-IsPart parts none [] h at k = h
keep-IsPart parts none (row ∷ rows) h at k =
    All-append IsPart parts (part_of none (row ∷ rows) ∷ []) h ((refl, (at, k)), tt)

sections_from-rows :
    (parts : List Section) (head : Option ListRow) (its rows : List ListRow)
    → rows_of (sections_from parts (part_of head its) rows)
      ≡ (rows_of parts ++ part_rows (part_of head its)) ++ filter is_drawn rows
unfolding sections_from filter
sections_from-rows parts head its [] =
    ground (
      arith,
      rows_of-keep parts head its,
      append-nil (rows_of parts ++ part_rows (part_of head its)),
    )
sections_from-rows parts head its (row ∷ rows) =
    let before = rows_of parts in
    let drawn = filter is_drawn rows in
    let front = heading_rows head in
    elim (Bool-cases (is_section row)) [
      | inl e ↦ ground (
        arith,
        e,
        sections_from-rows (keep parts (part_of head its)) (some row) [] rows,
        rows_of-keep parts head its,
        append_assoc (before ++ (front ++ its)) (row ∷ []) drawn,
      )
      | inr e ↦ ground (
        arith,
        e,
        sections_from-rows parts head (its ++ row ∷ []) rows,
        sections_from-rows parts head its rows,
        append_assoc front its (row ∷ []),
        append_assoc before (front ++ its) (row ∷ []),
        append_assoc (before ++ (front ++ its)) (row ∷ []) drawn,
      )
    ]

sections_from-IsPart :
    (parts : List Section) (head : Option ListRow) (its rows : List ListRow)
    → All IsPart parts
    → IsHeading head
    → All IsItem its
    → All IsPart (sections_from parts (part_of head its) rows)
unfolding sections_from
sections_from-IsPart parts head its [] h at k = keep-IsPart parts head its h at k
sections_from-IsPart parts head its (row ∷ rows) h at k = elim (Bool-cases (is_section row)) [
  | inl e ↦ ground (
    arith,
    e,
    sections_from-IsPart (keep parts (part_of head its)) (some row) [] rows
        (keep-IsPart parts head its h at k) e tt,
  )
  | inr e ↦ elim (Bool-cases (is_item row)) [
    | inl i ↦ ground (
      arith,
      e,
      i,
      sections_from-IsPart parts head (its ++ row ∷ []) rows h at
          (All-append IsItem its (row ∷ []) k (i, tt)),
    )
    | inr i ↦ ground (arith, e, i, sections_from-IsPart parts head its rows h at k)
  ]
]

-- The parts that a list is drawn in hold its headings and items, each once and in the list's
-- order; each part has a heading or an item, its heading is a heading and its items are items.
pub sections_lem :
    (rows : List ListRow)
    → (rows_of (sections rows) ≡ filter is_drawn rows) × All IsPart (sections rows)
unfolding rows_of
sections_lem rows =
    (sections_from-rows [] none [] rows, sections_from-IsPart [] none [] rows tt tt tt)
