-- ===== src/Realtime/LineBuffer/Cut.antt =====
-- The lines of a byte stream do not depend on how it was cut into reads.
use fermix_linux.Base.{
  ℕ, suc, ◌≡◌, refl, true, false, List, [], ◌∷◌, ◌++◌, none, some, arith, ◌==◌, take, drop,
  append_assoc, append-nil, Bool-cases, Option-cases, inl, inr,
}
use fermix_linux.Realtime.LineBuffer.{newline, position}

-- A line, if it is not empty, before others.
abbrev pub keep : List ℕ → List (List ℕ) → List (List ℕ)
keep [] lines = lines
keep (b ∷ line) lines = (b ∷ line) ∷ lines

-- The specification: the lines of a stream that are not empty, and what stands after its last
-- newline, given what was read of the first line.
unfoldable pub cut : List ℕ → List ℕ → List (List ℕ) × List ℕ
cut line [] = ([], line)
cut line (b ∷ bytes) = elim (b == newline) [
  | true ↦ (keep line (cut [] bytes).0, (cut [] bytes).1)
  | false ↦ cut (line ++ b ∷ []) bytes
]

keep-append : (line : List ℕ) (xs ys : List (List ℕ)) → keep line (xs ++ ys) ≡ keep line xs ++ ys
keep-append [] xs ys = refl
keep-append (b ∷ line) xs ys = refl

-- A stream in two parts: the second is cut from what the first left.
pub cut-append :
    (line xs ys : List ℕ)
    → cut line (xs ++ ys)
      ≡ ((cut line xs).0 ++ (cut (cut line xs).1 ys).0, (cut (cut line xs).1 ys).1)
unfolding cut
cut-append line [] ys = refl
cut-append line (b ∷ xs) ys = elim (Bool-cases (b == newline)) [
  | inl nl ↦
      ground (arith, cut-append [] xs ys, keep-append line (cut [] xs).0 (cut (cut [] xs).1 ys).0)
  | inr other ↦ ground (arith, cut-append (line ++ b ∷ []) xs ys)
]

pub cut_of_none :
    (line bytes : List ℕ) → position bytes ≡ none → cut line bytes ≡ ([], line ++ bytes)
unfolding cut position
cut_of_none line [] h = rw append-nil
cut_of_none line (b ∷ bytes) h = elim (Bool-cases (b == newline)) [
  | inl nl ↦ ground arith
  | inr other ↦ elim (Option-cases (position bytes)) [
    | inl e ↦ ground (arith, cut_of_none (line ++ b ∷ []) bytes e, append_assoc line (b ∷ []) bytes)
    | inr (n, e) ↦ ground (arith, e)
  ]
]

pub cut_of_some :
    (line bytes : List ℕ) (n : ℕ)
    → position bytes ≡ some n
    → cut line bytes ≡ (
      keep (line ++ take n bytes) (cut [] (drop (suc n) bytes)).0,
      (cut [] (drop (suc n) bytes)).1,
    )
unfolding cut position
cut_of_some line [] n h = cc
cut_of_some line (b ∷ bytes) n h = elim (Bool-cases (b == newline)) [
  | inl nl ↦ ground (arith, append-nil line)
  | inr other ↦ elim (Option-cases (position bytes)) [
    | inl e ↦ ground (arith, e)
    | inr (m, e) ↦ ground (
      arith,
      e,
      cut_of_some (line ++ b ∷ []) bytes m e,
      append_assoc line (b ∷ []) (take m bytes),
    )
  ]
]
