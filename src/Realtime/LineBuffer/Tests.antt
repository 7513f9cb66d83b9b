-- ===== src/Realtime/LineBuffer/Tests.antt =====
-- The theorems on the line buffer at concrete inputs.
use fermix_linux.Base.{ℕ, ◌≡◌, refl, List, [], ◌∷◌, some, arith}
use Prim.{tt}
use fermix_linux.Realtime.LineBuffer.{LineBuffer, newline, Pushed, push}
use fermix_linux.Realtime.LineBuffer.Stream.{within}
use fermix_linux.Realtime.LineBuffer.Caps.{fit}
use fermix_linux.Realtime.LineBuffer.Chunks.{joined, feed, feed_lem}

-- What is begun is `{`; a line is of three bytes at most.
abbrev begun : LineBuffer
begun = record { pending = 123 ∷ []; max_frame = 3; max_unscanned = 9 }

abbrev reads : List (List ℕ)
reads = (125 ∷ []) ∷ (10 ∷ 10 ∷ 91 ∷ []) ∷ (93 ∷ 10 ∷ 52 ∷ []) ∷ []

feed_lem_example :
    feed begun reads
    ≡ some (
      record { pending = 52 ∷ []; max_frame = 3; max_unscanned = 9 },
      (123 ∷ 125 ∷ []) ∷ (91 ∷ 93 ∷ []) ∷ [],
    )
unfolding fermix_linux.Realtime.LineBuffer.Cut.cut within fit joined
feed_lem_example = feed_lem reads begun refl (ground arith, (ground arith, (ground arith, tt))) refl
