-- ===== src/Checklists/Removals/Tests.antt =====
-- The theorem on removals at a concrete input.
use fermix_linux.Base.{◌≤◌, ◌≡◌, refl, List, [], ◌∷◌, none, some, String, length}
use fermix_linux.Checklists.Removals.{Removal, max_kept, removal_of, undo}
use fermix_linux.Checklists.Removals.Runs.{Act, first_state, run, run-undo}

-- Texts that are compared are in lower case.
abbrev lower : String → String
lower text = text

abbrev removed : List Act
removed = Act.removes "l1" (some "ci_1") "Milk" "c1" ∷ Act.removes "l1" none "Shopping" "c2" ∷ []

abbrev shopping : Removal
shopping = removal_of 2 "l1" none "Shopping"

removed-undo :
    (undo (run lower first_state removed).0 (run lower first_state removed).1 none "c3").1
    ≡ some (shopping, [])
unfolding run undo
removed-undo = refl

run-undo_example :
    (length (run lower first_state removed).0.kept ≤ max_kept)
    × (undo
          (run lower
            (undo (run lower first_state removed).0 (run lower first_state removed).1 none "c3").0
            (Act.undoes none "c4" ∷ [])).0
          (run lower
            (undo (run lower first_state removed).0 (run lower first_state removed).1 none "c3").0
            (Act.undoes none "c4" ∷ [])).1
          (some 2)
          "c5"
        ≡ (
          run lower
              (undo (run lower first_state removed).0 (run lower first_state removed).1 none "c3").0
              (Act.undoes none "c4" ∷ []),
          none,
        ))
run-undo_example =
    run-undo lower removed (Act.undoes none "c4" ∷ []) none "c3" "c5" shopping [] removed-undo
