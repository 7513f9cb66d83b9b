-- ===== src/Realtime/LineBuffer/Chunks.antt =====
-- A stream gives the same lines however it is cut into chunks.
use fermix_linux.Base.{
  ℕ, ◌+◌, ◌≤◌, ◌≡◌, refl, sym, ap, ◌∙◌, true, List, [], ◌∷◌, ◌++◌, Option, none, some, arith, leb,
  ◌==◌, length, length-append, append_assoc, append-nil, Bool-cases, inl, inr, ◌>>=◌, ◌&&◌, All,
}
use fermix_linux.Realtime.Protocol.{DecodeError}
use fermix_linux.Realtime.LineBuffer.{LineBuffer, newline, Pushed, push}
use fermix_linux.Realtime.LineBuffer.Cut.{keep, cut, cut-append}
use fermix_linux.Realtime.LineBuffer.Caps.{fit}
use fermix_linux.Realtime.LineBuffer.Stream.{left_of, of_stream, within, Answers, push_lem}

-- What a reader that stops at an error gets from chunks that arrive one after another.
pub feed : LineBuffer → List (List ℕ) → Option (LineBuffer × List (List ℕ))
feed b [] = some (b, [])
feed b (chunk ∷ chunks) = elim (push b chunk) [
  | some (after, Pushed.ok lines) ↦ feed after chunks >>= λ rest. some (rest.0, lines ++ rest.1)
  | some (after, Pushed.err _) ↦ none
  | none ↦ none
]

unfoldable pub joined : List (List ℕ) → List ℕ
joined [] = []
joined (chunk ∷ chunks) = chunk ++ joined chunks

ok_of :
    (b : LineBuffer) (bytes : List ℕ)
    → length b.pending + length bytes ≤ b.max_unscanned
    → within b bytes ≡ true
    → (r : Option (LineBuffer × Pushed)) → Answers b bytes r
    → r ≡ some (left_of b (of_stream b bytes).1, Pushed.ok (of_stream b bytes).0)
unfolding Answers
ok_of b bytes small fits none a = absurd a
ok_of b bytes small fits (some (after, Pushed.ok lines)) a = rw (a.2, a.3) refl
ok_of b bytes small fits (some (after, Pushed.err (DecodeError.buffer_too_large n))) a =
    ground (arith, small, a.0, a.1)
ok_of b bytes small fits (some (after, Pushed.err (DecodeError.frame_too_large n))) a =
    cc (fits, a.1)
ok_of b bytes small fits (some (after, Pushed.err DecodeError.missing_type)) a = absurd a
ok_of b bytes small fits (some (after, Pushed.err DecodeError.not_an_object)) a = absurd a
ok_of b bytes small fits (some (after, Pushed.err (DecodeError.not_json e))) a = absurd a
ok_of b bytes small fits (some (after, Pushed.err (DecodeError.bad_event e f))) a = absurd a

keep_le :
    (m : ℕ) (line : List ℕ) (lines : List (List ℕ))
    → fit m (keep line lines) ≡ true
    → length line ≤ m
unfolding fit
keep_le m [] lines fits = ground arith
keep_le m (b ∷ line) lines fits = ground (arith, fits)

-- The line that is begun is no longer than the line it ends up in.
begun_le :
    (m : ℕ) (line bytes : List ℕ)
    → fit m (cut line bytes).0 ≡ true
    → leb (length (cut line bytes).1) m ≡ true
    → length line ≤ m
unfolding cut
begun_le m line [] fits short = ground arith
begun_le m line (b ∷ bytes) fits short = elim (Bool-cases (b == newline)) [
  | inl nl ↦ ground (arith, keep_le m line (cut [] bytes).0)
  | inr other ↦ ground (arith, begun_le m (line ++ b ∷ []) bytes, length-append line (b ∷ []))
]

fit-append : (m : ℕ) (xs ys : List (List ℕ)) → fit m (xs ++ ys) ≡ (fit m xs && fit m ys)
unfolding fit
fit-append m [] ys = refl
fit-append m (x ∷ xs) ys = ground (arith, fit-append m xs ys)

-- What is begun has no newline.
cut-begun :
    (line bytes : List ℕ)
    → cut [] line ≡ ([], line)
    → cut [] (cut line bytes).1 ≡ ([], (cut line bytes).1)
unfolding cut
cut-begun line [] h = h
cut-begun line (b ∷ bytes) h = elim (Bool-cases (b == newline)) [
  | inl nl ↦ ground (arith, cut-begun [] bytes refl)
  | inr other ↦ ground (arith, cut-begun (line ++ b ∷ []) bytes, cut-append [] line (b ∷ []), h)
]

-- A stream in two parts, from what a buffer holds.
of_stream-append :
    (b : LineBuffer) (xs ys : List ℕ)
    → of_stream b (xs ++ ys)
      ≡ ((of_stream b xs).0 ++ (cut (of_stream b xs).1 ys).0, (cut (of_stream b xs).1 ys).1)
of_stream-append b xs ys =
    ap (cut []) (sym (append_assoc b.pending xs ys)) ∙ cut-append [] (b.pending ++ xs) ys

-- What the buffer holds after the first part makes of the second what `cut` does.
of_stream-left :
    (b : LineBuffer) (line ys : List ℕ)
    → cut [] line ≡ ([], line)
    → of_stream (left_of b line) ys ≡ cut line ys
of_stream-left b line ys h = ground (arith, cut-append [] line ys, h)

first_within : (b : LineBuffer) (xs ys : List ℕ) → within b (xs ++ ys) ≡ true → within b xs ≡ true
unfolding within
first_within b xs ys h = ground (
  arith,
  of_stream-append b xs ys,
  fit-append b.max_frame (of_stream b xs).0 (cut (of_stream b xs).1 ys).0,
  begun_le b.max_frame (of_stream b xs).1 ys,
)

second_within :
    (b : LineBuffer) (xs ys : List ℕ)
    → cut [] (of_stream b xs).1 ≡ ([], (of_stream b xs).1)
    → within b (xs ++ ys) ≡ true
    → within (left_of b (of_stream b xs).1) ys ≡ true
unfolding within
second_within b xs ys begun h = ground (
  arith,
  of_stream-append b xs ys,
  of_stream-left b (of_stream b xs).1 ys begun,
  fit-append b.max_frame (of_stream b xs).0 (cut (of_stream b xs).1 ys).0,
)

size_le :
    (b : LineBuffer) (bytes : List ℕ)
    → cut [] b.pending ≡ ([], b.pending)
    → within b bytes ≡ true
    → length b.pending ≤ b.max_frame
unfolding within
size_le b bytes begun h =
    ground (arith, of_stream-left b b.pending bytes begun, begun_le b.max_frame b.pending bytes)

feed_step :
    (b : LineBuffer) (chunk : List ℕ) (chunks : List (List ℕ)) (after : LineBuffer)
    (lines : List (List ℕ))
    → push b chunk ≡ some (after, Pushed.ok lines)
    → (end : LineBuffer) (more : List (List ℕ)) → feed after chunks ≡ some (end, more)
    → feed b (chunk ∷ chunks) ≡ some (end, lines ++ more)
unfolding feed
feed_step b chunk chunks after lines e end more e' = rw (feed, e, e', ◌>>=◌) refl

-- A stream whose lines are within the cap, in chunks that leave room for a line, gives its lines
-- that are not empty, and leaves what stands after them, however it is cut into the chunks.
pub feed_lem :
    (chunks : List (List ℕ)) (b : LineBuffer)
    → cut [] b.pending ≡ ([], b.pending)
    → All (λ chunk. b.max_frame + length chunk ≤ b.max_unscanned) chunks
    → within b (joined chunks) ≡ true
    → feed b chunks
      ≡ some (left_of b (of_stream b (joined chunks)).1, (of_stream b (joined chunks)).0)
unfolding feed joined cut
feed_lem [] b begun rooms fits = rw (append-nil b.pending, begun) refl
feed_lem (chunk ∷ chunks) b begun rooms fits =
    let ys = joined chunks in
    let fits_first = first_within b chunk ys fits in
    let left = (of_stream b chunk).1 in
    let begun' = cut-begun [] (b.pending ++ chunk) refl in
    feed_step b chunk chunks (left_of b left) (of_stream b chunk).0
      (ok_of b chunk (ground (arith, size_le b chunk begun fits_first, rooms.0)) fits_first
        (push b chunk) (push_lem b chunk))
      (left_of b (cut left ys).1) (cut left ys).0
      (feed_lem chunks (left_of b left) begun' rooms.1 (second_within b chunk ys begun' fits)
        ∙ rw (of_stream-left b left ys begun') refl)
    ∙ rw (of_stream-append b chunk ys) refl
