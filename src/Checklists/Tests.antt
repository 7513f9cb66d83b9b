-- ===== src/Checklists/Tests.antt =====
-- The theorems on the lists at concrete inputs.
use fermix_linux.Base.{
  ◌≡◌, refl, false, List, [], ◌∷◌, none, some, String, filter, All, has_seq, str_mem,
}
use fermix_linux.Chat.Wire.Lists.{ListOp, ListRow}
use fermix_linux.Checklists.{ListRef, sections, sections_from}
use fermix_linux.Checklists.Parts.{IsPart, is_drawn, rows_of, sections_lem}
use fermix_linux.Checklists.Draft.{apply_rows, place_index}
use fermix_linux.Checklists.Draft.Others.{apply_rows-others, leaves}
use fermix_linux.Checklists.Cards.{live}
use fermix_linux.Checklists.Cards.Live.{live_lem}

abbrev row_of : String → String → String → ListRow
row_of row_id kind text = record {
  row_id = row_id;
  kind = kind;
  text = text;
  note = none;
  done = some false;
  done_at = none;
}

abbrev milk : ListRow
milk = row_of "ci_1" "item" "Milk"

abbrev dairy : ListRow
dairy = row_of "ci_2" "section" "Dairy"

abbrev butter : ListRow
butter = row_of "ci_3" "item" "Butter"

abbrev shopping : List ListRow
shopping = milk ∷ dairy ∷ butter ∷ []

sections_lem_example :
    (rows_of (sections shopping) ≡ filter is_drawn shopping) × All IsPart (sections shopping)
sections_lem_example = sections_lem shopping

known_sections :
    sections shopping
    ≡ record { heading = none; items = milk ∷ [] }
      ∷ record { heading = some dairy; items = butter ∷ [] }
      ∷ []
unfolding sections_from
known_sections = refl

known_place : place_index none shopping ≡ 1
unfolding place_index
known_place = refl

apply_rows-others_example :
    filter (leaves (ListOp.check "ci_3") "c1") (apply_rows (ListOp.check "ci_3") "c1" shopping)
    ≡ filter (leaves (ListOp.check "ci_3") "c1") shopping
apply_rows-others_example = apply_rows-others (ListOp.check "ci_3") "c1" shopping

abbrev list_ref : String → ListRef
list_ref id = record { list_id = id; title = "Shopping"; rows = [] }

live_lem_example :
    has_seq 4 (live ((4, list_ref "l1" ∷ []) ∷ (9, list_ref "l1" ∷ list_ref "l2" ∷ []) ∷ []))
    ≡ false
unfolding str_mem
live_lem_example =
    live_lem 4 (list_ref "l1" ∷ []) [] ((9, list_ref "l1" ∷ list_ref "l2" ∷ []) ∷ []) refl refl
