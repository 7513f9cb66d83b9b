-- ===== src/Chat/Proposals/Cut.antt =====
-- Where outside text is cut (desktop/core/src/chat_wire/proposals.rs).
use fermix_linux.Base.{
  ℕ, zero, suc, ◌+◌, ◌-◌, ◌*◌, ◌≤◌, ◌<◌, ◌≡◌, ◌==◌, refl, sym, subst, ap, ◌∙◌, Bool, true, false,
  List, [], ◌∷◌, ◌++◌, Option, none, some, is_some, is_empty, arith, ltb, leb, Bool-cases, inl, inr,
  take, append_assoc, append-nil,
}
use fermix_linux.Chat.Proposals.{
  ellipsis, kept_from, line_starts, onto_first, outside, outside_kept, outside_lines, trim_end,
  wrap_columns, wraps_of,
}

-- The lines that a text's lines wrap to, in all.
unfoldable pub wraps_in : List (List ℕ) → ℕ
wraps_in [] = 0
wraps_in (line ∷ lines) = wraps_of line + wraps_in lines

kept_from-cut :
    (front : List ℕ) (used : ℕ) (lines : List (List ℕ))
    → used ≤ outside_lines
    → is_some (kept_from front used lines) ≡ ltb outside_lines (used + wraps_in lines)
unfolding kept_from wraps_in
kept_from-cut front used [] h = ground (arith, h)
kept_from-cut front used (line ∷ lines) h =
    elim (Bool-cases (leb (wraps_of line) (outside_lines - used))) [
      | inl e ↦ ground (
        arith,
        e,
        h,
        kept_from-cut (front ++ (line ++ 10 ∷ [])) (used + wraps_of line) lines
            (ground (arith, e, h)),
      )
      | inr e ↦ ground (arith, e, h)
    ]

-- The lines, each with its newline.
ended : List (List ℕ) → List ℕ
ended [] = []
ended (line ∷ lines) = line ++ 10 ∷ ended lines

-- The lines, with a newline between each and the next.
joined : List (List ℕ) → List ℕ
joined [] = []
joined (line ∷ []) = line
joined (line ∷ next ∷ lines) = line ++ 10 ∷ joined (next ∷ lines)

-- The first of the lines that fit, whole, and of the first that does not, the characters that fill
-- the lines left.
IsHead : List ℕ → ℕ → List (List ℕ) → List ℕ → Type 0
unfolding wraps_in ended
IsHead front used lines head =
    (before : List (List ℕ)) × (line : List ℕ) × (later : List (List ℕ)) × (lines
      ≡ before ++ line ∷ later)
    × (used + wraps_in before ≤ outside_lines)
    × (outside_lines < used + wraps_in before + wraps_of line)
    × (head
        ≡ front
          ++ (ended before
              ++ take ((outside_lines - (used + wraps_in before)) * wrap_columns) line))

IsHead-cons :
    (front : List ℕ) (used : ℕ) (line : List ℕ) (lines : List (List ℕ)) (head : List ℕ)
    → IsHead (front ++ (line ++ 10 ∷ [])) (used + wraps_of line) lines head
    → IsHead front used (line ∷ lines) head
unfolding IsHead wraps_in ended
IsHead-cons front used line lines head (before, next, later, e, fits, over, h) =
    let n = outside_lines - (used + wraps_of line + wraps_in before) in
    let same : used + wraps_of line + wraps_in before ≡ used + (wraps_of line + wraps_in before) =
      omega arith in
    let moved : (front ++ (line ++ 10 ∷ [])) ++ (ended before ++ take (n * wrap_columns) next)
        ≡ front ++ ((line ++ 10 ∷ ended before) ++ take (n * wrap_columns) next) =
      append_assoc front (line ++ 10 ∷ []) (ended before ++ take (n * wrap_columns) next)
      ∙ ap (λ rest. front ++ rest)
          (append_assoc line (10 ∷ []) (ended before ++ take (n * wrap_columns) next)
            ∙ sym (append_assoc line (10 ∷ ended before) (take (n * wrap_columns) next))) in
    (
      line ∷ before,
      next,
      later,
      ap (λ rest. line ∷ rest) e,
      omega (arith, fits),
      omega (arith, over),
      subst
          (λ m.
            head
            ≡ front
              ++ ((line ++ 10 ∷ ended before) ++ take ((outside_lines - m) * wrap_columns) next))
          same (h ∙ moved),
    )

kept_from-IsHead :
    (front : List ℕ) (used : ℕ) (lines : List (List ℕ)) (head : List ℕ)
    → used ≤ outside_lines
    → kept_from front used lines ≡ some head
    → IsHead front used lines head
unfolding kept_from IsHead wraps_in ended
kept_from-IsHead front used [] head h k = cc
kept_from-IsHead front used (line ∷ lines) head h k =
    elim (Bool-cases (leb (wraps_of line) (outside_lines - used))) [
      | inl e ↦ IsHead-cons front used line lines head (
          kept_from-IsHead (front ++ (line ++ 10 ∷ [])) (used + wraps_of line) lines head
            (ground (arith, e, h)) (ground (arith, e, k)))
      | inr e ↦
          let nothing : used ≡ used + 0 = omega arith in
          let same : head ≡ front ++ take ((outside_lines - used) * wrap_columns) line =
            ground (arith, e, k) in
          (
            [],
            line,
            lines,
            refl,
            omega (arith, h),
            ground (arith, e, h),
            subst (λ m. head ≡ front ++ take ((outside_lines - m) * wrap_columns) line) nothing
                same,
          )
    ]

take-drop : (n : ℕ) (line : List ℕ) → (rest : List ℕ) × (take n line ++ rest ≡ line)
take-drop zero line = (line, refl)
take-drop (suc n) [] = ([], refl)
take-drop (suc n) (c ∷ line) = let found = take-drop n line in (found.0, ap (λ cs. c ∷ cs) found.1)

joined-first :
    (line : List ℕ) (later : List (List ℕ))
    → (rest : List ℕ) × (joined (line ∷ later) ≡ line ++ rest)
unfolding joined
joined-first line [] = ([], sym (append-nil line))
joined-first line (next ∷ later) = (10 ∷ joined (next ∷ later), refl)

joined-append :
    (before : List (List ℕ)) (line : List ℕ) (later : List (List ℕ))
    → joined (before ++ line ∷ later) ≡ ended before ++ joined (line ∷ later)
unfolding joined ended
joined-append [] line later = refl
joined-append (first ∷ []) line later = sym (append_assoc first (10 ∷ []) (joined (line ∷ later)))
joined-append (first ∷ second ∷ before) line later =
    ap (λ rest. first ++ 10 ∷ rest) (joined-append (second ∷ before) line later)
    ∙ sym (append_assoc first (10 ∷ ended (second ∷ before)) (joined (line ∷ later)))

joined-onto_first : (c : ℕ) (lines : List (List ℕ)) → joined (onto_first c lines) ≡ c ∷ joined lines
unfolding joined
joined-onto_first c [] = refl
joined-onto_first c (line ∷ []) = refl
joined-onto_first c (line ∷ next ∷ lines) = refl

joined-empty :
    (lines : List (List ℕ)) → is_empty lines ≡ false → joined ([] ∷ lines) ≡ 10 ∷ joined lines
unfolding joined
joined-empty [] h = cc
joined-empty (line ∷ lines) h = refl

onto_first-full : (c : ℕ) (lines : List (List ℕ)) → is_empty (onto_first c lines) ≡ false
onto_first-full c [] = refl
onto_first-full c (line ∷ lines) = refl

line_starts-full : (text : List ℕ) → is_empty (line_starts text) ≡ false
unfolding line_starts
line_starts-full [] = refl
line_starts-full (c ∷ text) = ground (arith, onto_first-full c (line_starts text))

-- The lines of a text are its text again.
joined-line_starts : (text : List ℕ) → joined (line_starts text) ≡ text
unfolding line_starts joined
joined-line_starts [] = refl
joined-line_starts (c ∷ text) = elim (Bool-cases (c == 10)) [
  | inl e ↦
      let same : c ≡ 10 = ground (arith, e) in
      rw (e) (
        joined-empty (line_starts text) (line_starts-full text)
        ∙ ap (λ rest. 10 ∷ rest) (joined-line_starts text)
        ∙ ap (λ x. x ∷ text) (sym same))
  | inr e ↦
      rw (e)
        (joined-onto_first c (line_starts text) ∙ ap (λ rest. c ∷ rest) (joined-line_starts text))
]

-- A head of the text's lines is a head of the text.
IsHead-text :
    (text head : List ℕ)
    → IsHead [] 0 (line_starts text) head
    → (rest : List ℕ) × (head ++ rest ≡ text)
unfolding IsHead
IsHead-text text head (before, line, later, e, fits, over, h) =
    let n = (outside_lines - (0 + wraps_in before)) * wrap_columns in
    let tail = take-drop n line in
    let after = joined-first line later in
    let same : text ≡ ended before ++ (line ++ after.0) =
      sym (joined-line_starts text)
      ∙ ap joined e
      ∙ joined-append before line later
      ∙ ap (λ rest. ended before ++ rest) after.1 in
    (
      tail.0 ++ after.0,
      ap (λ front. front ++ (tail.0 ++ after.0)) h
          ∙ append_assoc (ended before) (take n line) (tail.0 ++ after.0)
          ∙ ap (λ rest. ended before ++ rest)
              (sym (append_assoc (take n line) tail.0 after.0)
                ∙ ap (λ front. front ++ after.0) tail.1)
          ∙ sym same,
    )

-- What is shown of a text, by whether it is cut.
pub Shows : List ℕ → Bool → List ℕ → Type 0
unfolding IsHead
Shows text false shown = shown ≡ text
Shows text true shown =
    (head : List ℕ) × IsHead [] 0 (line_starts text) head
    × ((rest : List ℕ) × (head ++ rest ≡ text))
    × (shown ≡ trim_end head ++ ellipsis ∷ [])

outside_kept_lem :
    (text : List ℕ) (kept : Option (List ℕ))
    → ((head : List ℕ) → kept ≡ some head → IsHead [] 0 (line_starts text) head)
    → ((outside_kept text kept).cut ≡ is_some kept)
      × Shows text (outside_kept text kept).cut (outside_kept text kept).text
unfolding outside_kept Shows
outside_kept_lem text none h = (refl, refl)
outside_kept_lem text (some head) h =
    let found = h head refl in (refl, (head, found, IsHead-text text head found, refl))

-- Outside text is cut just where its lines, wrapped at 80 columns, are more than 12. Where it is
-- not, it is shown whole. Where it is, what is shown is a head of it without its trailing
-- whitespace and with the ellipsis: the lines before the one that goes past the 12, whole, and of
-- that one as many characters as fill the wrapped lines left, 80 in each.
pub outside_lem :
    (text : List ℕ)
    → ((outside text).cut ≡ ltb outside_lines (wraps_in (line_starts text)))
      × Shows text (outside text).cut (outside text).text
unfolding outside
outside_lem text =
    let lines = line_starts text in
    let facts =
      outside_kept_lem text (kept_from [] 0 lines)
        (λ head k. kept_from-IsHead [] 0 lines head (omega arith) k) in
    (ground (arith, facts.0, kept_from-cut [] 0 lines (omega arith)), facts.1)
