-- ===== src/Chat/Proposals/Tests.antt =====
-- The theorem on outside text at a concrete input, and known answers.
use fermix_linux.Base.{◌≡◌, refl, List, [], ◌∷◌, ltb, ℕ}
use fermix_linux.Chat.Wire.Cards.{Ask, Decision}
use fermix_linux.Chat.Proposals.{line_starts, outside, outside_lines}
use fermix_linux.Chat.Proposals.Cut.{Shows, outside_lem, wraps_in}
use fermix_linux.Chat.Proposals.Words.{answers}

-- "Hi" on one line, and "!" on the next.
abbrev greeting : List ℕ
greeting = 72 ∷ 105 ∷ 10 ∷ 33 ∷ []

outside_lem_example :
    ((outside greeting).cut ≡ ltb outside_lines (wraps_in (line_starts greeting)))
    × Shows greeting (outside greeting).cut (outside greeting).text
outside_lem_example = outside_lem greeting

known_answers :
    answers (Ask.call "m" "send_mail" "{}")
    ≡ ("Deny", Decision.deny) ∷ ("Confirm", Decision.confirm) ∷ []
unfolding answers
known_answers = refl
