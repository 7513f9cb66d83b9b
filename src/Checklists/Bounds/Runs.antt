-- ===== src/Checklists/Bounds/Runs.antt =====
-- The library stays within its bounds (desktop/core/src/checklists/library.rs).
use fermix_linux.Base.{List, [], ◌∷◌, String, arith, filter}
use fermix_linux.Checklists.Library.{Library, default}
use fermix_linux.Checklists.Library.Answers.{is_creating}
use fermix_linux.Checklists.Calls.{Call, run, step}
use fermix_linux.Checklists.Taken.{lists_event_lem}
use fermix_linux.Checklists.Bounds.{IsBounded, draw-IsBounded}
use fermix_linux.Checklists.Bounds.Steps.{
  create-IsBounded, edit-IsBounded, remove-IsBounded, reword-IsBounded,
}
use fermix_linux.Checklists.Bounds.Answers.{
  accepted-IsBounded, found_all-IsBounded, received_index-IsBounded, refused-IsBounded,
  renewed-IsBounded,
}

step-IsBounded :
    (lower : String → String) (lib : Library) (c : Call)
    → IsBounded lib
    → IsBounded (step lower lib c).0
unfolding step
step-IsBounded lower lib (Call.draws id removed) k = draw-IsBounded lib id removed k
step-IsBounded lower lib (Call.edits id op client) k = edit-IsBounded lib id op client k
step-IsBounded lower lib (Call.removes id row client) k = remove-IsBounded lib id row client k
step-IsBounded lower lib (Call.rewords id began words memo client) k =
    reword-IsBounded lib id began words memo client k
step-IsBounded lower lib (Call.creates title folder client) k =
    create-IsBounded lib title folder client k
step-IsBounded lower lib (Call.handshake version) k = renewed-IsBounded lib version k
step-IsBounded lower lib Call.ending k = k
step-IsBounded lower lib (Call.event e) k =
    lists_event_lem IsBounded lower lib k (λ lists. received_index-IsBounded lower lib lists k)
      (λ list made. found_all-IsBounded lib (filter (is_creating lib) made) k)
      (λ id duplicate. accepted-IsBounded lib id duplicate k)
      (λ id sentence. refused-IsBounded lib id sentence k) e

run-IsBounded_from :
    (lower : String → String) (lib : Library) (calls : List Call)
    → IsBounded lib
    → IsBounded (run lower lib calls)
unfolding run
run-IsBounded_from lower lib [] k = k
run-IsBounded_from lower lib (c ∷ calls) k =
    run-IsBounded_from lower (step lower lib c).0 calls (step-IsBounded lower lib c k)

-- Whatever the owner does and the daemon sends, and however connections come and end: at most 16
-- lists are held, at most 64 wait to be pulled, and at most 64 edits wait for their answers.
pub run-IsBounded :
    (lower : String → String) (calls : List Call) → IsBounded (run lower default calls)
run-IsBounded lower calls = run-IsBounded_from lower default calls (ground arith)
