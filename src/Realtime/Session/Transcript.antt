-- ===== src/Realtime/Session/Transcript.antt =====
-- The transcript of a call keeps its last lines.
use fermix_linux.Base.{
  ℕ, zero, suc, ◌-◌, ◌≤◌, ◌≡◌, refl, ap, List, [], ◌∷◌, ◌++◌, append_assoc, append-nil, arith,
  length, length-append, length-drop, drop, ◌∙◌, ltb, Bool-cases, inl, inr,
}
use fermix_linux.Realtime.Session.Data.{TranscriptLine, transcript_lines, remove_first, push_line}

abbrev pub last_lines : List TranscriptLine → List TranscriptLine
last_lines lines = drop (length lines - transcript_lines) lines

-- one line after another
pub push_lines : List TranscriptLine → List TranscriptLine → List TranscriptLine
push_lines transcript [] = transcript
push_lines transcript (line ∷ lines) = push_lines (push_line transcript line) lines

drop-append :
    (k : ℕ) (xs ys : List TranscriptLine) → k ≤ length xs → drop k (xs ++ ys) ≡ drop k xs ++ ys
drop-append zero xs ys h = refl
drop-append (suc k) [] ys h = absurd (omega arith)
drop-append (suc k) (x ∷ xs) ys h = drop-append k xs ys (omega arith)

remove_first-drop : (k : ℕ) (xs : List TranscriptLine) → remove_first (drop k xs) ≡ drop (suc k) xs
remove_first-drop zero [] = refl
remove_first-drop zero (x ∷ xs) = refl
remove_first-drop (suc k) [] = refl
remove_first-drop (suc k) (x ∷ xs) = remove_first-drop k xs

push_line-last_lines :
    (lines : List TranscriptLine) (line : TranscriptLine)
    → push_line (last_lines lines) line ≡ last_lines (lines ++ line ∷ [])
unfolding push_line
push_line-last_lines lines line =
    let k = length lines - transcript_lines in
    let joined = drop-append k lines (line ∷ []) (omega arith) in
    let size = length-append lines (line ∷ []) in
    let kept = length-append (drop k lines) (line ∷ []) in
    let dropped = length-drop k lines in
    elim (Bool-cases (ltb transcript_lines (length (drop k lines ++ line ∷ [])))) [
      | inl over ↦ rw over (
          rw (← joined) (
            rw (remove_first-drop k (lines ++ line ∷ [])) (
              ap (λ n. drop n (lines ++ line ∷ [])) {x = suc k}
                (ground (arith, size, kept, dropped)))))
      | inr fits ↦ rw fits (
          rw (← joined)
            (ap (λ n. drop n (lines ++ line ∷ [])) {x = k} (ground (arith, size, kept, dropped))))
    ]

push_lines-last_lines :
    (before lines : List TranscriptLine)
    → push_lines (last_lines before) lines ≡ last_lines (before ++ lines)
unfolding push_lines
push_lines-last_lines before [] = rw append-nil
push_lines-last_lines before (line ∷ lines) = rw push_line-last_lines (
    push_lines-last_lines (before ++ line ∷ []) lines
    ∙ ap last_lines (append_assoc before (line ∷ []) lines))

-- A transcript that starts empty and takes one line after another holds the last eight, in order.
pub push_lines_lem :
    (lines : List TranscriptLine)
    → push_lines [] lines ≡ drop (length lines - transcript_lines) lines
push_lines_lem lines = push_lines-last_lines [] lines
