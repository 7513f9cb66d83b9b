-- ===== src/Chat/Proposals.antt =====
-- Outside text on a proposal's card (desktop/core/src/chat_wire/proposals.rs): a text is the list
-- of its code points.
pub mod Cut
pub mod Words
mod Tests
use fermix_linux.Base.{
  ℕ, ◌+◌, ◌-◌, ◌*◌, ◌/◌, Bool, true, false, ◌&&◌, List, [], ◌∷◌, ◌++◌, Option, none, some, ◌==◌,
  ltb, leb, if◌then◌else◌, length, take, is_empty, is_whitespace, max,
}

abbrev pub outside_lines : ℕ
outside_lines = 12

abbrev pub wrap_columns : ℕ
wrap_columns = 80

pub record Shown : Type 0 where
  pub text : List ℕ
  pub cut : Bool

abbrev pub onto_first : ℕ → List (List ℕ) → List (List ℕ)
onto_first c [] = (c ∷ []) ∷ []
onto_first c (line ∷ lines) = (c ∷ line) ∷ lines

-- `line_starts`, the lines alone: each starts where those before it end.
unfoldable pub line_starts : List ℕ → List (List ℕ)
line_starts [] = [] ∷ []
line_starts (c ∷ text) =
    let rest = line_starts text in if c == 10 then [] ∷ rest else onto_first c rest

-- The lines that a line wraps to.
abbrev pub wraps_of : List ℕ → ℕ
wraps_of line = max ((length line + (wrap_columns - 1)) / wrap_columns) 1

-- The loop over the lines, with the text before them and the lines so far: what is kept, where
-- the text is cut.
unfoldable pub kept_from : List ℕ → ℕ → List (List ℕ) → Option (List ℕ)
kept_from front lines [] = none
kept_from front lines (line ∷ rest) =
    let later = kept_from (front ++ (line ++ 10 ∷ [])) (lines + wraps_of line) rest in
    if leb (wraps_of line) (outside_lines - lines)
    then later
    else some (front ++ take ((outside_lines - lines) * wrap_columns) line)

-- `str::trim_end`
unfoldable pub trim_end : List ℕ → List ℕ
trim_end [] = []
trim_end (c ∷ text) =
    let rest = trim_end text in if is_whitespace c && is_empty rest then [] else c ∷ rest

-- "…"
abbrev pub ellipsis : ℕ
ellipsis = 8230

unfoldable pub outside_kept : List ℕ → Option (List ℕ) → Shown
unfolding trim_end
outside_kept text none = record { text = text; cut = false }
outside_kept text (some head) = record { text = trim_end head ++ ellipsis ∷ []; cut = true }

unfoldable pub outside : List ℕ → Shown
unfolding outside_kept kept_from line_starts
outside text = outside_kept text (kept_from [] 0 (line_starts text))
