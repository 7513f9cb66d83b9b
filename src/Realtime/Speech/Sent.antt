-- ===== src/Realtime/Speech/Sent.antt =====
-- What the speech gate sends over a run of pushes (desktop/core/src/realtime/speech.rs), beside
-- its specification.
use fermix_linux.Base.{
  ℕ, zero, suc, ◌+◌, ◌*◌, ◌/◌, ◌≤◌, ◌<◌, ◌≡◌, refl, sym, ap, ◌∙◌, Bool, true, false, List, [], ◌∷◌,
  ◌++◌, Option, none, some, arith, leb, length, take, drop, map, append-nil, get_elem?, Bool-cases,
  inl, inr, if◌then◌else◌, ◌>>=◌,
}
use fermix_linux.Base.Int.{ℤ}
use fermix_linux.Realtime.Speech.{
  new, Uplink, Frame, silence, send_on, decide, decide_all, pre_roll_frames, zeros, silence_held,
  chunk_samples, chunks, le_bytes, whole_blocks, push_frames,
}
use fermix_linux.Realtime.Speech.Near.{near, told, push-near}

abbrev pub verdict : Frame → Bool
verdict frame = frame.1

abbrev pub wire : Frame → List ℤ
wire frame = frame.0

abbrev pub start : Uplink
start = record { gate = new; waiting = []; decided = [] }

-- Whether the microphone is audible, and the frames, oldest first.
abbrev pub Push : Type 0
Push = Bool × List Frame

joined : List (List ℕ) → List ℕ
joined [] = []
joined (block ∷ blocks) = block ++ joined blocks

-- The pushes, the newest first in the list, with the bytes that went out.
pub run : List Push → Option (Uplink × List ℕ)
unfolding joined
run [] = some (start, [])
run (p ∷ pushes) = run pushes >>= λ before.
    push_frames before.0 p.0 p.1 >>= λ next. some (next.0, before.1 ++ joined next.1)

-- The specification: the frames that came, the newest first, the samples that went out, and those
-- decided that did not.
pub record Sent : Type 0 where
  frames : List Frame
  pub gone : List ℤ
  held : List ℤ

-- The frame that the newest one decides, as it goes out.
pub out : List Frame → List ℤ
out frames = elim (get_elem? frames pre_roll_frames) [
  | none ↦ []
  | some frame ↦ if near (map verdict frames) then wire frame else silence
]

comes : Sent → Frame → Sent
comes s frame =
    let frames = frame ∷ s.frames in record s { frames = frames; held = s.held ++ out frames }

all_come : Sent → List Frame → Sent
unfolding comes
all_come s [] = s
all_come s (frame ∷ frames) = all_come (comes s frame) frames

-- The newest frames, so many, are silence in place of what came.
silent : ℕ → List Frame → List Frame
silent zero frames = frames
silent (suc n) [] = []
silent (suc n) (frame ∷ frames) = (zeros (wire frame), verdict frame) ∷ silent n frames

-- The microphone is shut: the last ten frames, and what was decided and did not go out.
shut : Sent → Sent
unfolding silent
shut s = record s { frames = silent pre_roll_frames s.frames; held = zeros s.held }

-- What makes whole blocks goes out.
goes : Sent → Sent
goes s =
    let n = length s.held / chunk_samples * chunk_samples in
    record s { gone = s.gone ++ take n s.held; held = drop n s.held }

pub spoken : List Push → Sent
unfolding all_come shut goes
spoken [] = record { frames = []; gone = []; held = [] }
spoken (p ∷ pushes) =
    let before = spoken pushes in goes (all_come (if p.0 then before else shut before) p.1)

rev : List (List ℤ) → List (List ℤ)
rev [] = []
rev (x ∷ xs) = rev xs ++ x ∷ []

rev-take :
    (n : ℕ) (frames : List Frame) (frame : Frame)
    → get_elem? frames n ≡ some frame
    → rev (map wire (take (suc n) frames)) ≡ wire frame ∷ rev (map wire (take n frames))
unfolding rev
rev-take n [] frame h = cc
rev-take zero (x ∷ frames) frame h = ground (arith, h)
rev-take (suc n) (x ∷ frames) frame h = rw (rev-take n frames frame h) refl

-- The pipeline then: the last ten frames wait, oldest first.
pub after : Sent → Uplink
unfolding rev
after s = record {
  gate = told (map verdict s.frames);
  waiting = rev (map wire (take pre_roll_frames s.frames));
  decided = s.held;
}

take_all : (n : ℕ) (frames : List Frame) → length frames ≤ n → take n frames ≡ frames
take_all zero [] h = refl
take_all zero (x ∷ frames) h = ground arith
take_all (suc n) [] h = refl
take_all (suc n) (x ∷ frames) h = ap (λ rest. x ∷ rest) (take_all n frames (ground arith))

get_of_short : (n : ℕ) (frames : List Frame) → length frames ≤ n → get_elem? frames n ≡ none
get_of_short n [] h = refl
get_of_short zero (x ∷ frames) h = ground arith
get_of_short (suc n) (x ∷ frames) h = get_of_short n frames (ground arith)

get_of_long :
    (n : ℕ) (frames : List Frame) → n < length frames → (g : Frame) × (get_elem? frames n ≡ some g)
get_of_long n [] h = ground arith
get_of_long zero (x ∷ frames) h = (x, refl)
get_of_long (suc n) (x ∷ frames) h = get_of_long n frames (ground arith)

length-map-verdict : (frames : List Frame) → length (map verdict frames) ≡ length frames
length-map-verdict [] = refl
length-map-verdict (x ∷ frames) = ap suc (length-map-verdict frames)

decide_early :
    (s : Sent) (frame : Frame)
    → leb pre_roll_frames (length s.frames) ≡ false
    → decide (after s) (wire frame) (verdict frame) ≡ some (after (comes s frame))
unfolding decide send_on after told rev comes out
decide_early s frame early =
    rw
      (
        push-near (map verdict s.frames) (verdict frame),
        length-map-verdict s.frames,
        early,
        take_all 10 s.frames (ground arith),
        take_all 9 s.frames (ground arith),
        get_of_short 9 s.frames (ground arith),
        append-nil s.held,
      )
      refl

decide_late :
    (s : Sent) (frame g : Frame)
    → leb pre_roll_frames (length s.frames) ≡ true
    → get_elem? s.frames 9 ≡ some g
    → decide (after s) (wire frame) (verdict frame) ≡ some (after (comes s frame))
unfolding decide send_on after told rev comes out
decide_late s frame g late e =
    rw
      (
        push-near (map verdict s.frames) (verdict frame),
        length-map-verdict s.frames,
        late,
        rev-take 9 s.frames g e,
        e,
      )
      refl

decide_lem :
    (s : Sent) (frame : Frame)
    → decide (after s) (wire frame) (verdict frame) ≡ some (after (comes s frame))
decide_lem s frame = elim (Bool-cases (leb pre_roll_frames (length s.frames))) [
  | inl late ↦
      let found = get_of_long 9 s.frames (ground arith) in decide_late s frame found.0 late found.1
  | inr early ↦ decide_early s frame early
]

decide_all_lem :
    (s : Sent) (frames : List Frame)
    → decide_all (after s) frames ≡ some (after (all_come s frames))
unfolding decide_all all_come
decide_all_lem s [] = refl
decide_all_lem s (frame ∷ frames) =
    rw (decide_lem s frame, ◌>>=◌) (decide_all_lem (comes s frame) frames)

verdicts-silent : (n : ℕ) (frames : List Frame) → map verdict (silent n frames) ≡ map verdict frames
unfolding silent
verdicts-silent zero frames = refl
verdicts-silent (suc n) [] = refl
verdicts-silent (suc n) (frame ∷ frames) = ap (λ vs. verdict frame ∷ vs) (verdicts-silent n frames)

take-silent :
    (n : ℕ) (frames : List Frame)
    → map wire (take n (silent n frames)) ≡ map zeros (map wire (take n frames))
unfolding silent
take-silent zero frames = refl
take-silent (suc n) [] = refl
take-silent (suc n) (frame ∷ frames) = ap (λ ws. zeros (wire frame) ∷ ws) (take-silent n frames)

map-append : (f : List ℤ → List ℤ) (xs ys : List (List ℤ)) → map f (xs ++ ys) ≡ map f xs ++ map f ys
map-append f [] ys = refl
map-append f (x ∷ xs) ys = ap (λ zs. f x ∷ zs) (map-append f xs ys)

map-rev : (f : List ℤ → List ℤ) (xs : List (List ℤ)) → map f (rev xs) ≡ rev (map f xs)
unfolding rev
map-rev f [] = refl
map-rev f (x ∷ xs) = map-append f (rev xs) (x ∷ []) ∙ ap (λ ys. ys ++ f x ∷ []) (map-rev f xs)

silence_held_lem : (s : Sent) → silence_held (after s) ≡ after (shut s)
unfolding silence_held after shut rev
silence_held_lem s =
    let waits : map zeros (rev (map wire (take pre_roll_frames s.frames)))
        ≡ rev (map wire (take pre_roll_frames (silent pre_roll_frames s.frames))) =
      map-rev zeros (map wire (take pre_roll_frames s.frames))
      ∙ ap rev (sym (take-silent pre_roll_frames s.frames)) in
    rw (waits, verdicts-silent pre_roll_frames s.frames) refl

le_bytes-append : (xs ys : List ℤ) → le_bytes (xs ++ ys) ≡ le_bytes xs ++ le_bytes ys
unfolding le_bytes
le_bytes-append [] ys = refl
le_bytes-append (x ∷ xs) ys = rw (le_bytes-append xs ys) refl

take_nil : (n : ℕ) → take {A = ℤ} n [] ≡ []
take_nil zero = refl
take_nil (suc n) = refl

take-append : (m n : ℕ) (xs : List ℤ) → take m xs ++ take n (drop m xs) ≡ take (m + n) xs
take-append zero n xs = ap (λ k. take k xs) (omega arith)
take-append (suc m) n [] = rw (take_nil n, take_nil (suc m + n)) refl
take-append (suc m) n (x ∷ xs) =
    ap (λ ys. x ∷ ys) (take-append m n xs) ∙ ap (λ k. take k (x ∷ xs)) same
  where
    same : suc (m + n) ≡ suc m + n
    same = omega arith

joined-chunks :
    (n : ℕ) (xs : List ℤ) → joined (chunks n xs) ≡ le_bytes (take (n * chunk_samples) xs)
unfolding joined chunks le_bytes
joined-chunks zero xs = refl
joined-chunks (suc n) xs =
    let rest = drop chunk_samples xs in
    let more : chunk_samples + n * chunk_samples ≡ suc n * chunk_samples = omega arith in
    ap (λ bytes. le_bytes (take chunk_samples xs) ++ bytes) (joined-chunks n rest)
    ∙ sym (le_bytes-append (take chunk_samples xs) (take (n * chunk_samples) rest))
    ∙ ap le_bytes (take-append chunk_samples (n * chunk_samples) xs)
    ∙ ap (λ k. le_bytes (take k xs)) more

opened :
    (s : Sent) (audible : Bool)
    → (if audible then after s else silence_held (after s)) ≡ after (if audible then s else shut s)
opened s true = refl
opened s false = silence_held_lem s

push_frames_lem :
    (s : Sent) (audible : Bool) (frames : List Frame)
    → push_frames (after s) audible frames
      ≡ some (whole_blocks (after (all_come (if audible then s else shut s) frames)))
unfolding push_frames
push_frames_lem s audible frames =
    ap (λ u. decide_all u frames >>= λ next. some (whole_blocks next)) (opened s audible)
    ∙ ap (λ o. o >>= λ next. some (whole_blocks next))
        (decide_all_lem (if audible then s else shut s) frames)

whole_blocks_lem :
    (s : Sent) (before : List ℤ)
    → s.gone ≡ before
    → ◌≡◌ {A = Uplink × List ℕ}
        ((whole_blocks (after s)).0, le_bytes before ++ joined (whole_blocks (after s)).1)
        (after (goes s), le_bytes (goes s).gone)
unfolding whole_blocks after goes
whole_blocks_lem s before e =
    let n = length s.held / chunk_samples in
    rw
      (
        sym e,
        joined-chunks n s.held,
        sym (le_bytes-append s.gone (take (n * chunk_samples) s.held)),
      )
      refl

all_come-gone : (s : Sent) (frames : List Frame) → (all_come s frames).gone ≡ s.gone
unfolding all_come comes
all_come-gone s [] = refl
all_come-gone s (frame ∷ frames) = all_come-gone (comes s frame) frames

shut-gone : (s : Sent) (audible : Bool) → (if audible then s else shut s).gone ≡ s.gone
unfolding shut
shut-gone s true = refl
shut-gone s false = refl

-- However many frames the pushes bring, and whether the microphone is audible at each or not, none
-- fails the pipeline. What goes out, in whole blocks and ten frames late, is each frame as it came
-- where a frame near it was voiced, and silence where none was; where a push comes while the
-- microphone is not audible, the last ten frames before it and what was decided and did not go out
-- are silence too.
pub run_lem :
    (pushes : List Push) → run pushes ≡ some (after (spoken pushes), le_bytes (spoken pushes).gone)
unfolding run after spoken told le_bytes
run_lem [] = refl
run_lem (p ∷ pushes) =
    let before = spoken pushes in
    let opened = if p.0 then before else shut before in
    let last = all_come opened p.1 in
    rw (run_lem pushes, ◌>>=◌, push_frames_lem before p.0 p.1)
      (ap some
        (whole_blocks_lem last before.gone (all_come-gone opened p.1 ∙ shut-gone before p.0)))
