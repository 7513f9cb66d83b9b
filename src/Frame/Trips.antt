-- ===== src/Frame/Trips.antt =====
-- What is written as frames is read as the same bodies.
use Prim.{tt}
use fermix_linux.Base.{
  ℕ, zero, suc, ◌^◌, ◌<◌, ◌≤◌, ◌≡◌, refl, sym, ap, ◌∙◌, Bool, true, false, List, [], ◌∷◌, ◌++◌,
  append_assoc, append-nil, Option, none, some, ltb, arith, if◌then◌else◌, length, length-append,
  take, drop, ◌⊎◌, inl, inr, ◌>>=◌,
}
use fermix_linux.Frame.{
  max_frame_bytes, FrameError, be_bytes, from_be_bytes, or_io, write_frame, read_exact, read_body,
  read_header, read_frame,
}

from_be_bytes-be_bytes : (n : ℕ) → n < 2 ^ 32 → from_be_bytes (be_bytes n) ≡ n
unfolding from_be_bytes be_bytes
from_be_bytes-be_bytes n h = omega (arith, h)

take-append : (xs ys : List ℕ) → take (length xs) (xs ++ ys) ≡ xs
take-append [] ys = refl
take-append (x ∷ xs) ys = ap (λ zs. x ∷ zs) (take-append xs ys)

drop-append : (xs ys : List ℕ) → drop (length xs) (xs ++ ys) ≡ ys
drop-append [] ys = refl
drop-append (x ∷ xs) ys = drop-append xs ys

read_exact-append : (xs ys : List ℕ) → read_exact (length xs) (xs ++ ys) ≡ some (xs, ys)
unfolding read_exact
read_exact-append xs ys =
    let long : ltb (length (xs ++ ys)) (length xs) ≡ false = ground (arith, length-append xs ys) in
    rw (long, take-append xs ys, drop-append xs ys) refl

-- A body that a frame may hold.
abbrev pub IsBody : List ℕ → Type 0
IsBody body = length body ≤ max_frame_bytes

read_frame-append :
    (body rest : List ℕ)
    → IsBody body
    → read_frame (be_bytes (length body) ++ body ++ rest) ≡ inr (body, rest)
unfolding read_frame read_header read_body be_bytes
read_frame-append body rest h =
    let small : ltb max_frame_bytes (length body) ≡ false = ground (arith, h) in
    ap read_header (read_exact-append (be_bytes (length body)) (body ++ rest))
    ∙ ap (λ n. read_body n (body ++ rest)) (from_be_bytes-be_bytes (length body) (omega (arith, h)))
    ∙ rw (small, read_exact-append body rest) refl

-- The bytes of bodies as frames.
unfoldable pub stream : List (List ℕ) → List ℕ
unfolding be_bytes
stream [] = []
stream (body ∷ bodies) = be_bytes (length body) ++ body ++ stream bodies

abbrev then_read :
    List ℕ → FrameError ⊎ (List (List ℕ) × List ℕ) → FrameError ⊎ (List (List ℕ) × List ℕ)
then_read body (inl e) = inl e
then_read body (inr (bodies, rest)) = inr (body ∷ bodies, rest)

-- As many frames, one after another.
unfoldable pub reads : ℕ → List ℕ → FrameError ⊎ (List (List ℕ) × List ℕ)
reads zero bytes = inr ([], bytes)
reads (suc n) bytes = elim (read_frame bytes) [
  | inl e ↦ inl e
  | inr (body, rest) ↦ then_read body (reads n rest)
]

unfoldable pub AreBodies : List (List ℕ) → Type 0
AreBodies [] = Unit {0}
AreBodies (body ∷ bodies) = IsBody body × AreBodies bodies

reads-stream :
    (bodies : List (List ℕ)) (rest : List ℕ)
    → AreBodies bodies
    → reads (length bodies) (stream bodies ++ rest) ≡ inr (bodies, rest)
unfolding reads stream AreBodies
reads-stream [] rest h = refl
reads-stream (body ∷ bodies) rest h =
    ap (λ bytes. reads (suc (length bodies)) bytes)
      (append_assoc (be_bytes (length body)) (body ++ stream bodies) rest
        ∙ ap (λ bytes. be_bytes (length body) ++ bytes) (append_assoc body (stream bodies) rest))
    ∙ ap reads_on (read_frame-append body (stream bodies ++ rest) h.0)
    ∙ ap (then_read body) (reads-stream bodies rest h.1)
  where
    reads_on : FrameError ⊎ (List ℕ × List ℕ) → FrameError ⊎ (List (List ℕ) × List ℕ)
    reads_on o = elim o [
      | inl e ↦ inl e
      | inr (body, rest) ↦ then_read body (reads (length bodies) rest)
    ]

bind_some {ℓ κ} :
    {A : Type ℓ}
    → {B : Type κ} → (o : Option A) (f : A → Option B) (b : B) → (o >>= f) ≡ some b
    → (a : A) × (o ≡ some a) × (f a ≡ some b)
bind_some none f b e = absurd (none_not_some e)
  where
    none_not_some : {B : Type κ} → {b : B} → (none ≡ some b) → ⊥
    none_not_some h = cc h
bind_some (some a) f b e = (a, refl, e)

or_io-inr {ℓ} : {A : Type ℓ} → (o : Option A) (a : A) → or_io o ≡ inr a → o ≡ some a
or_io-inr none a e = cc e
or_io-inr (some b) a e = cc e

if_inr {ℓ κ} :
    {E : Type ℓ}
    → {A : Type κ} → (b : Bool) (x : E) (o : E ⊎ A) (a : A) → (if b then inl x else o) ≡ inr a
    → (b ≡ false) × (o ≡ inr a)
if_inr true x o a e = (cc e, cc e)
if_inr false x o a e = (refl, e)

inl_not_inr {ℓ κ} : {E : Type ℓ} → {A : Type κ} → {x : E} → {a : A} → (inl x ≡ inr a) → ⊥
inl_not_inr h = cc h

abbrev then_write {ℓ} : {W : Type ℓ} → (W → FrameError ⊎ W) → FrameError ⊎ W → FrameError ⊎ W
then_write write (inl e) = inl e
then_write write (inr v) = write v

then_write-inr {ℓ} :
    {W : Type ℓ}
    → (write : W → FrameError ⊎ W) (o : FrameError ⊎ W) (v : W) → then_write write o ≡ inr v
    → (u : W) × (o ≡ inr u) × (write u ≡ inr v)
then_write-inr write (inl x) v e = absurd (inl_not_inr e)
then_write-inr write (inr u) v e = (u, refl, e)

module _ {ℓ} {W : Type ℓ} (write_all : W → List ℕ → Option W) (flush : W → Option W) where
  -- Bodies written as frames, in turn.
  unfoldable pub writes : W → List (List ℕ) → FrameError ⊎ W
  writes w [] = inr w
  writes w (body ∷ bodies) = then_write (λ v. writes v bodies) (write_frame write_all flush w body)

-- A writer, and what was sent by it: what it took is sent, and a flush sends no more.
module _ {ℓ} {W : Type ℓ} (write_all : W → List ℕ → Option W) (flush : W → Option W)
    (sent : W → List ℕ)
    (write_all-sent : (w : W) (bytes : List ℕ) (v : W)
      → write_all w bytes ≡ some v
      → sent v ≡ sent w ++ bytes)
    (flush-sent : (w v : W) → flush w ≡ some v → sent v ≡ sent w) where
  written :
      (w v : W) (header body : List ℕ)
      → (write_all w header >>= λ u. write_all u body >>= flush) ≡ some v
      → sent v ≡ sent w ++ header ++ body
  written w v header body e =
      let first = bind_some (write_all w header) (λ u. write_all u body >>= flush) v e in
      let second = bind_some (write_all first.0 body) flush v first.2 in
      flush-sent second.0 v second.2
      ∙ write_all-sent first.0 body second.0 second.1
      ∙ ap (λ bytes. bytes ++ body) (write_all-sent w header first.0 first.1)

  write_frame-sent :
      (w v : W) (body : List ℕ)
      → write_frame write_all flush w body ≡ inr v
      → IsBody body × (sent v ≡ sent w ++ be_bytes (length body) ++ body)
  unfolding write_frame
  write_frame-sent w v body e =
      let header = be_bytes (length body) in
      let found =
        if_inr (ltb max_frame_bytes (length body)) (FrameError.too_large (length body))
          (or_io (write_all w header >>= λ u. write_all u body >>= flush)) v e in
      (
        ground (arith, found.0),
        written w v header body
            (or_io-inr (write_all w header >>= λ u. write_all u body >>= flush) v found.1),
      )

  writes-sent :
      (bodies : List (List ℕ)) (w v : W)
      → writes write_all flush w bodies ≡ inr v
      → AreBodies bodies × (sent v ≡ sent w ++ stream bodies)
  unfolding writes stream AreBodies
  writes-sent [] w v e =
      let same : w ≡ v = cc e in (tt, ap sent (sym same) ∙ sym (append-nil (sent w)))
  writes-sent (body ∷ bodies) w v e =
      let found =
        then_write-inr (λ v. writes write_all flush v bodies) (write_frame write_all flush w body) v
          e in
      let first = write_frame-sent w found.0 body found.1 in
      let rest = writes-sent bodies found.0 v found.2 in
      (
        (first.0, rest.0),
        rest.1
            ∙ ap (λ bytes. bytes ++ stream bodies) first.1
            ∙ append_assoc (sent w ++ be_bytes (length body)) body (stream bodies)
            ∙ append_assoc (sent w) (be_bytes (length body)) (body ++ stream bodies),
      )

  -- Bodies that were written as frames in turn are read in turn, each as it was, and what is read
  -- past them is left, where the writer sends what it takes and a flush sends no more.
  pub reads-writes :
      (bodies : List (List ℕ)) (w v : W) (rest : List ℕ)
      → writes write_all flush w bodies ≡ inr v
      → (bytes : List ℕ) × (sent v ≡ sent w ++ bytes)
        × (reads (length bodies) (bytes ++ rest) ≡ inr (bodies, rest))
  reads-writes bodies w v rest e =
      let done = writes-sent bodies w v e in
      (stream bodies, done.1, reads-stream bodies rest done.0)
