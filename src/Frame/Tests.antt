-- ===== src/Frame/Tests.antt =====
-- Frames at concrete bytes.
use fermix_linux.Base.{ℕ, ◌≡◌, refl, List, [], ◌∷◌, ◌++◌, Option, some, inl, inr}
use fermix_linux.Frame.{
  FrameError, be_bytes, read_frame, read_header, read_exact, read_body, from_be_bytes, write_frame,
}
use fermix_linux.Frame.Trips.{reads, writes, reads-writes}

-- A writer that takes every byte, and holds those it took.
abbrev write_all : List ℕ → List ℕ → Option (List ℕ)
write_all taken bytes = some (taken ++ bytes)

abbrev flush : List ℕ → Option (List ℕ)
flush taken = some taken

abbrev sent : List ℕ → List ℕ
sent taken = taken

write_all-sent : (w bytes v : List ℕ) → write_all w bytes ≡ some v → sent v ≡ sent w ++ bytes
write_all-sent w bytes v e = cc e

flush-sent : (w v : List ℕ) → flush w ≡ some v → sent v ≡ sent w
flush-sent w v e = cc e

abbrev bodies : List (List ℕ)
bodies = (104 ∷ 105 ∷ []) ∷ [] ∷ (33 ∷ []) ∷ []

abbrev taken : List ℕ
taken = 0 ∷ 0 ∷ 0 ∷ 2 ∷ 104 ∷ 105 ∷ 0 ∷ 0 ∷ 0 ∷ 0 ∷ 0 ∷ 0 ∷ 0 ∷ 1 ∷ 33 ∷ []

writes-bodies : writes write_all flush [] bodies ≡ inr taken
unfolding writes write_frame be_bytes
writes-bodies = refl

reads-writes_example :
    (bytes : List ℕ) × (taken ≡ [] ++ bytes) × (reads 3 (bytes ++ 7 ∷ []) ≡ inr (bodies, 7 ∷ []))
reads-writes_example =
    reads-writes write_all flush sent write_all-sent flush-sent bodies [] taken (7 ∷ [])
      writes-bodies

-- A frame that names one byte more than the cap, and one that is cut.
known_frames :
    (read_frame (0 ∷ 64 ∷ 0 ∷ 1 ∷ []) ≡ inl (FrameError.too_large 4194305))
    × (read_frame (0 ∷ 0 ∷ 0 ∷ 2 ∷ 9 ∷ []) ≡ inl FrameError.io)
    × (read_frame (0 ∷ 0 ∷ []) ≡ inl FrameError.io)
unfolding read_frame read_header read_exact read_body from_be_bytes
known_frames = (refl, refl, refl)
