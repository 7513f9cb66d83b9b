-- ===== src/Reach/Tests.antt =====
-- A follow and a line at concrete inputs.
use fermix_linux.Base.{◌≡◌, refl, Bool, true, false, List, [], ◌∷◌, some}
use fermix_linux.Reach.{answered, exhausted, refused, wait_ms}
use fermix_linux.Reach.Followed.{follow}
use fermix_linux.Reach.Line.{Kind, RemoteState, line, line_of, new}

-- An answer, then two refusals, the newest first.
abbrev answers : List Bool
answers = false ∷ false ∷ true ∷ []

known_wait : wait_ms (follow answers) ≡ 4000
unfolding wait_ms follow exhausted answered refused
known_wait = refl

known_line :
    line
      (some (record { state = RemoteState.failed; connected = false; failure = some "No relay." }))
    ≡ some (new "No relay." Kind.failure)
unfolding line_of
known_line = refl
