-- ===== src/Realtime/Speech/Tests.antt =====
-- The theorems on the speech gate at concrete inputs.
use fermix_linux.Base.{
  ◌≡◌, Bool, true, false, List, [], ◌∷◌, none, some, length, leb, if◌then◌else◌,
}
use fermix_linux.Base.Int.{pos}
use fermix_linux.Realtime.Speech.{Frame, le_bytes, push, pre_roll_frames}
use fermix_linux.Realtime.Speech.Near.{near, told, push-near}
use fermix_linux.Realtime.Speech.Sent.{Push, after, run, run_lem, spoken}

-- A voiced frame, then eleven that are not.
abbrev verdicts : List Bool
verdicts =
    false ∷ false ∷ false ∷ false ∷ false ∷ false ∷ false ∷ false ∷ false ∷ false ∷ false ∷ true
    ∷ []

push-near_example :
    (push (told verdicts) false).1
    ≡ (if leb pre_roll_frames (length verdicts) then some (near (false ∷ verdicts)) else none)
push-near_example = push-near verdicts false

abbrev quiet : Frame
quiet = (pos 3 ∷ pos 4 ∷ [], false)

abbrev spoken_frame : Frame
spoken_frame = (pos 300 ∷ pos 400 ∷ [], true)

-- Twelve frames that are heard, one of them voiced, and then one of a microphone that is shut.
abbrev pushes : List Push
pushes =
    (false, quiet ∷ [])
    ∷ (
      true,
      quiet ∷ spoken_frame ∷ quiet ∷ quiet ∷ quiet ∷ quiet ∷ quiet ∷ quiet ∷ quiet ∷ quiet ∷ quiet
          ∷ quiet ∷ [],
    )
    ∷ []

run_lem_example : run pushes ≡ some (after (spoken pushes), le_bytes (spoken pushes).gone)
run_lem_example = run_lem pushes
