-- ===== src/Realtime/LineBuffer/Stream.antt =====
-- What a push returns, and what a buffer makes of a stream that comes in chunks.
use fermix_linux.Base.{
  ℕ, suc, ◌+◌, ◌≤◌, ◌<◌, ◌≡◌, refl, ap, Bool, true, false, List, [], ◌++◌, Option, none, some,
  arith, ltb, leb, length, Bool-cases, inl, inr, ◌&&◌,
}
use fermix_linux.Realtime.Protocol.{DecodeError}
use fermix_linux.Realtime.LineBuffer.{LineBuffer, Scan, scan, finish, Pushed, push}
use fermix_linux.Realtime.LineBuffer.Cut.{cut}
use fermix_linux.Realtime.LineBuffer.Caps.{fit, Meets, scan_lem}

-- The buffer with what a stream leaves in it.
abbrev pub left_of : LineBuffer → List ℕ → LineBuffer
left_of b pending = record b { pending = pending }

-- The lines of what was left and what came, and what stands after them.
abbrev pub of_stream : LineBuffer → List ℕ → List (List ℕ) × List ℕ
of_stream b bytes = cut [] (b.pending ++ bytes)

-- Everything of a stream is within the cap on a line.
unfoldable pub within : LineBuffer → List ℕ → Bool
within b bytes =
    fit b.max_frame (of_stream b bytes).0 && leb (length (of_stream b bytes).1) b.max_frame

-- What a push of `bytes` has to return.
unfoldable pub Answers : LineBuffer → List ℕ → Option (LineBuffer × Pushed) → Type 0
Answers b bytes none = ⊥
Answers b bytes (some (after, Pushed.ok lines)) =
    (length b.pending + length bytes ≤ b.max_unscanned)
    × (within b bytes ≡ true)
    × (lines ≡ (of_stream b bytes).0)
    × (after ≡ left_of b (of_stream b bytes).1)
Answers b bytes (some (after, Pushed.err (DecodeError.buffer_too_large n))) =
    (n ≡ length b.pending + length bytes) × (b.max_unscanned < n) × (after ≡ left_of b [])
Answers b bytes (some (after, Pushed.err (DecodeError.frame_too_large n))) =
    (length b.pending + length bytes ≤ b.max_unscanned)
    × (within b bytes ≡ false)
    × (b.max_frame < n)
    × (after ≡ left_of b [])
Answers b bytes (some (after, Pushed.err _)) = ⊥

Answers-finish :
    (b : LineBuffer) (bytes : List ℕ)
    → length b.pending + length bytes ≤ b.max_unscanned
    → (s : Scan) → Meets b.max_frame (b.pending ++ bytes) [] s
    → Answers b bytes (finish b s)
unfolding Answers Meets finish within
Answers-finish b bytes small (Scan.too_large n) met = (small, ground (arith, met), met.0, refl)
Answers-finish b bytes small Scan.unfinished met = met
Answers-finish b bytes small (Scan.done rest lines) met =
    elim (Bool-cases (ltb b.max_frame (length rest))) [
      | inl large ↦ rw (large) (small, ground (arith, met), ground arith, refl)
      | inr fits ↦ rw (fits) (small, ground (arith, met), met.0, ap (left_of b) met.1)
    ]

-- A push always returns, and what it has to: the lines of what was left and what came that are
-- not empty, with what stands after them kept, where everything is within the caps; the error
-- of the cap that is passed, with nothing kept, where it is not.
pub push_lem : (b : LineBuffer) (bytes : List ℕ) → Answers b bytes (push b bytes)
unfolding push Answers
push_lem b bytes = elim (Bool-cases (ltb b.max_unscanned (length b.pending + length bytes))) [
  | inl large ↦ rw (large) (refl, ground arith, refl)
  | inr small ↦ rw (small) (
      Answers-finish b bytes (ground arith)
        (scan (suc (length (b.pending ++ bytes))) b.max_frame (b.pending ++ bytes) [])
        (scan_lem (suc (length (b.pending ++ bytes))) b.max_frame (b.pending ++ bytes) []
          (ground arith)))
]
