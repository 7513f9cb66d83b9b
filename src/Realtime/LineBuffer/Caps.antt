-- ===== src/Realtime/LineBuffer/Caps.antt =====
-- A push gives exactly the lines of what was left and what came, or the error of a cap.
use fermix_linux.Base.{
  ℕ, zero, suc, ◌<◌, ◌≡◌, refl, sym, subst, ◌∙◌, Bool, true, false, List, [], ◌∷◌, ◌++◌, none, some,
  arith, ltb, leb, ◌==◌, length, length-drop, length-take, take, drop, if◌then◌else◌, append_assoc,
  append-nil, Bool-cases, Option-cases, inl, inr, ◌&&◌,
}
use fermix_linux.Realtime.LineBuffer.{newline, position, Scan, scan}
use fermix_linux.Realtime.LineBuffer.Cut.{keep, cut, cut_of_none, cut_of_some}

-- The lines are within the cap.
unfoldable pub fit : ℕ → List (List ℕ) → Bool
fit m [] = true
fit m (line ∷ lines) = leb (length line) m && fit m lines

-- What the loop has to end with.
unfoldable pub Meets : ℕ → List ℕ → List (List ℕ) → Scan → Type 0
Meets m rest lines (Scan.done left found) =
    (found ≡ lines ++ (cut [] rest).0) × (left ≡ (cut [] rest).1) × (fit m (cut [] rest).0 ≡ true)
Meets m rest lines (Scan.too_large n) = (m < n) × (fit m (cut [] rest).0 ≡ false)
Meets m rest lines Scan.unfinished = ⊥

position_lt : (bytes : List ℕ) (n : ℕ) → position bytes ≡ some n → n < length bytes
unfolding position
position_lt [] n h = cc
position_lt (b ∷ bytes) n h = elim (Bool-cases (b == newline)) [
  | inl nl ↦ ground arith
  | inr other ↦ elim (Option-cases (position bytes)) [
    | inl e ↦ ground (arith, e)
    | inr (m, e) ↦ ground (arith, e, position_lt bytes m e)
  ]
]

fit-keep :
    (m : ℕ) (line : List ℕ) (lines : List (List ℕ))
    → leb (length line) m ≡ true
    → fit m (keep line lines) ≡ fit m lines
unfolding fit
fit-keep m [] lines h = refl
fit-keep m (b ∷ line) lines h = ground (arith, h)

unfit_keep :
    (m : ℕ) (line : List ℕ) (lines : List (List ℕ))
    → m < length line
    → fit m (keep line lines) ≡ false
unfolding fit
unfit_keep m [] lines h = ground arith
unfit_keep m (b ∷ line) lines h = ground (arith, h)

-- The lines with one more, if it is not empty.
abbrev added : List (List ℕ) → ℕ → List ℕ → List (List ℕ)
added lines n rest = if ltb 0 n then lines ++ take n rest ∷ [] else lines

scan_at_none :
    (fuel m : ℕ) (rest : List ℕ) (lines : List (List ℕ))
    → position rest ≡ none
    → scan (suc fuel) m rest lines ≡ Scan.done rest lines
unfolding scan
scan_at_none fuel m rest lines e = rw (e, scan) refl

scan_at_some :
    (fuel m : ℕ) (rest : List ℕ) (lines : List (List ℕ)) (n : ℕ)
    → position rest ≡ some n
    → scan (suc fuel) m rest lines
      ≡ (if ltb m n then Scan.too_large n else scan fuel m (drop (suc n) rest) (added lines n rest))
unfolding scan
scan_at_some fuel m rest lines n e = rw (e, scan) refl

added_lem :
    (lines : List (List ℕ)) (n : ℕ) (rest : List ℕ) (more : List (List ℕ))
    → n < length rest
    → added lines n rest ++ more ≡ lines ++ keep (take n rest) more
added_lem lines zero rest more h = refl
added_lem lines (suc n) [] more h = ground arith
added_lem lines (suc n) (b ∷ rest) more h =
    ground (arith, append_assoc lines ((b ∷ take n rest) ∷ []) more)

Meets-at_none :
    (m : ℕ) (rest : List ℕ) (lines : List (List ℕ))
    → position rest ≡ none
    → Meets m rest lines (Scan.done rest lines)
unfolding Meets fit
Meets-at_none m rest lines e = rw (cut_of_none [] rest e) (sym (append-nil lines), refl, refl)

Meets-at_large :
    (m : ℕ) (rest : List ℕ) (lines : List (List ℕ)) (n : ℕ)
    → position rest ≡ some n
    → m < n
    → Meets m rest lines (Scan.too_large n)
unfolding Meets
Meets-at_large m rest lines n e h = rw (cut_of_some [] rest n e) (
  h,
  unfit_keep m (take n rest) (cut [] (drop (suc n) rest)).0
      (ground (arith, length-take n rest, position_lt rest n e)),
)

fit_step :
    (m : ℕ) (rest : List ℕ) (lines : List (List ℕ)) (n : ℕ)
    → position rest ≡ some n
    → ltb m n ≡ false
    → fit m (keep (take n rest) (cut [] (drop (suc n) rest)).0)
      ≡ fit m (cut [] (drop (suc n) rest)).0
fit_step m rest lines n e h =
    fit-keep m (take n rest) (cut [] (drop (suc n) rest)).0
      (ground (arith, length-take n rest, position_lt rest n e))

Meets-step :
    (m : ℕ) (rest : List ℕ) (lines : List (List ℕ)) (n : ℕ)
    → position rest ≡ some n
    → ltb m n ≡ false
    → (s : Scan) → Meets m (drop (suc n) rest) (added lines n rest) s
    → Meets m rest lines s
unfolding Meets
Meets-step m rest lines n e h (Scan.done left found) met = rw (cut_of_some [] rest n e) (
  met.0 ∙ added_lem lines n rest (cut [] (drop (suc n) rest)).0 (position_lt rest n e),
  met.1,
  fit_step m rest lines n e h ∙ met.2,
)
Meets-step m rest lines n e h (Scan.too_large k) met =
    rw (cut_of_some [] rest n e) (met.0, fit_step m rest lines n e h ∙ met.1)
Meets-step m rest lines n e h Scan.unfinished met = met

-- The loop, from anywhere: with fuel for what stands there it ends, as `cut` says.
pub scan_lem :
    (fuel m : ℕ) (rest : List ℕ) (lines : List (List ℕ))
    → length rest < fuel
    → Meets m rest lines (scan fuel m rest lines)
scan_lem zero m rest lines h = ground arith
scan_lem (suc fuel) m rest lines h = elim (Option-cases (position rest)) [
  | inl e ↦
      subst (Meets m rest lines) (sym (scan_at_none fuel m rest lines e))
        (Meets-at_none m rest lines e)
  | inr (n, e) ↦
      subst (Meets m rest lines) (sym (scan_at_some fuel m rest lines n e))
        (elim (Bool-cases (ltb m n)) [
          | inl large ↦ rw (large) (Meets-at_large m rest lines n e (ground arith))
          | inr small ↦ rw (small) (
              Meets-step m rest lines n e small
                (scan fuel m (drop (suc n) rest) (added lines n rest))
                (scan_lem fuel m (drop (suc n) rest) (added lines n rest)
                  (ground (arith, length-drop (suc n) rest, position_lt rest n e))))
        ])
]
