-- ===== src/Realtime/LineBuffer.antt =====
-- The split of the inbound byte stream into lines (`LineBuffer` of
-- desktop/core/src/realtime/protocol.rs). A method returns the new buffer beside its result.
pub mod Cut
pub mod Caps
pub mod Stream
mod Chunks
mod Tests
use fermix_linux.Base.{
  ℕ, zero, suc, ◌+◌, Bool, ◌&&◌, List, [], ◌∷◌, ◌++◌, Option, none, some, ltb, leb, ◌==◌, length,
  take, drop, if◌then◌else◌,
}
use fermix_linux.Realtime.Protocol.{DecodeError}

abbrev pub newline : ℕ
newline = 10

abbrev pub max_frame_bytes : ℕ
max_frame_bytes = 1048576

abbrev pub max_unscanned_bytes : ℕ
max_unscanned_bytes = 2097152

pub record LineBuffer : Type 0 where
  pub pending : List ℕ
  pub max_frame : ℕ
  pub max_unscanned : ℕ

-- `none` where the caps are out of order
pub with_caps : ℕ → ℕ → Option LineBuffer
with_caps max_frame max_unscanned =
    if ltb 0 max_frame && leb max_frame max_unscanned
    then some (record { pending = []; max_frame = max_frame; max_unscanned = max_unscanned })
    else none

-- `iter().position(|&b| b == b'\n')`
pub position : List ℕ → Option ℕ
position [] = none
position (b ∷ bytes) =
    let later = position bytes in
    if b == newline then some 0 else elim later [ some n ↦ some (suc n) | none ↦ none ]

-- What the loop of `push` ends with: what is left from `start` on and the lines, or a line past
-- the cap. The last case is a loop that has not ended within its fuel.
pub data Scan : Type 0 where
  done : List ℕ → List (List ℕ) → Scan
  too_large : ℕ → Scan
  unfinished : Scan

-- The loop of `push`, over what stands from `start` on.
pub scan : ℕ → ℕ → List ℕ → List (List ℕ) → Scan
scan zero max_frame rest lines = Scan.unfinished
scan (suc fuel) max_frame rest lines = elim (position rest) [
  | none ↦ Scan.done rest lines
  | some n ↦
      let next =
        scan fuel max_frame (drop (suc n) rest)
          (if ltb 0 n then lines ++ take n rest ∷ [] else lines) in
      if ltb max_frame n then Scan.too_large n else next
]

pub data Pushed : Type 0 where
  ok : List (List ℕ) → Pushed
  err : DecodeError → Pushed

-- What `push` returns from the end of the loop; `none` for a loop that does not end.
pub finish : LineBuffer → Scan → Option (LineBuffer × Pushed)
finish b (Scan.too_large n) =
    some (record b { pending = [] }, Pushed.err (DecodeError.frame_too_large n))
finish b Scan.unfinished = none
finish b (Scan.done rest lines) =
    if ltb b.max_frame (length rest)
    then some (record b { pending = [] }, Pushed.err (DecodeError.frame_too_large (length rest)))
    else some (record b { pending = rest }, Pushed.ok lines)

pub push : LineBuffer → List ℕ → Option (LineBuffer × Pushed)
push b bytes =
    let size = length b.pending + length bytes in
    let joined = b.pending ++ bytes in
    if ltb b.max_unscanned size
    then some (record b { pending = [] }, Pushed.err (DecodeError.buffer_too_large size))
    else finish b (scan (suc (length joined)) b.max_frame joined [])
