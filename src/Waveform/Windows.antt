-- ===== src/Waveform/Windows.antt =====
-- The windows of a note's power hold every frame (desktop/core/src/waveform.rs).
use Prim.{tt}
use fermix_linux.Base.{
  ℕ, suc, zero, ◌+◌, ◌*◌, ◌≤◌, ◌<◌, ◌≡◌, refl, sym, subst, ◌∙◌, true, false, List, [], ◌∷◌, ◌++◌,
  arith, All, length, length-append, ◌==◌, ltb, Bool-cases, inl, inr,
}
use fermix_linux.Waveform.{
  Numbers, Power, Window, add, add_sample, add_samples, all_windows, capacity, close, empty_window,
  frames_of, new, pairs,
}

module _ (n : Numbers) where
  -- A window of so many frames.
  abbrev pub IsFull : ℕ → Window n → Type 0
  IsFull frames w = w.frames ≡ frames

  -- Fewer than 1024 windows are closed, each of as many frames as the power says, and the open one
  -- has fewer.
  abbrev pub IsPower : Power n → Type 0
  IsPower p =
      ((length p.windows < capacity) × (p.opened.frames < p.window_frames))
      × All (IsFull p.window_frames) p.windows

  -- The frames of the windows, the open one among them.
  abbrev pub counted : Power n → ℕ
  counted p = frames_of n p.windows + p.opened.frames

  frames_of-append :
      (ws : List (Window n)) (w : Window n) → frames_of n (ws ++ w ∷ []) ≡ frames_of n ws + w.frames
  unfolding frames_of
  frames_of-append [] w = omega arith
  frames_of-append (v ∷ ws) w = omega (arith, frames_of-append ws w)

  All-last :
      (frames : ℕ) (ws : List (Window n)) (w : Window n)
      → All (IsFull frames) ws
      → IsFull frames w
      → All (IsFull frames) (ws ++ w ∷ [])
  All-last frames [] w h k = (k, tt)
  All-last frames (v ∷ ws) w h k = (h.0, All-last frames ws w h.1 k)

  -- Pairs of an even number of windows hold what they did.
  pairs_lem :
      (half frames : ℕ) (ws : List (Window n))
      → length ws ≡ half * 2
      → All (IsFull frames) ws
      → ((length (pairs n ws) ≡ half) × (frames_of n (pairs n ws) ≡ frames_of n ws))
        × All (IsFull (frames * 2)) (pairs n ws)
  unfolding pairs frames_of
  pairs_lem zero frames [] h k = ((refl, refl), tt)
  pairs_lem (suc half) frames [] h k = ground (arith, h)
  pairs_lem zero frames (a ∷ ws) h k = ground (arith, h)
  pairs_lem (suc half) frames (a ∷ []) h k = ground (arith, h)
  pairs_lem (suc half) frames (a ∷ b ∷ ws) h k =
      let rest = pairs_lem half frames ws (omega (arith, h)) k.1.1 in
      ((omega (arith, rest.0.0), omega (arith, rest.0.1)), (omega (arith, k.0, k.1.0), rest.1))

  -- The open window is closed, and where there would be 1024 they are merged.
  abbrev closed : Power n → Power n
  closed p = record p { windows = p.windows ++ p.opened ∷ []; opened = empty_window n }

  abbrev merged : Power n → Power n
  unfolding pairs
  merged p = record p {
    windows = pairs n (p.windows ++ p.opened ∷ []);
    opened = empty_window n;
    window_frames = p.window_frames * 2;
  }

  close-closed :
      (p : Power n)
      → ltb (length (p.windows ++ p.opened ∷ [])) capacity ≡ true
      → close n p ≡ closed p
  unfolding close
  close-closed p e = rw e refl

  close-merged :
      (p : Power n)
      → ltb (length (p.windows ++ p.opened ∷ [])) capacity ≡ false
      → close n p ≡ merged p
  unfolding close merged
  close-merged p e = rw e refl

  -- What a power is after some of its frames came.
  abbrev Holds : ℕ → Power n → Type 0
  Holds frames p = (IsPower p × (1 ≤ p.window_frames)) × (counted p ≡ frames)

  close_lem :
      (p : Power n)
      → 1 ≤ p.window_frames
      → length p.windows < capacity
      → p.opened.frames ≡ p.window_frames
      → All (IsFull p.window_frames) p.windows
      → Holds (counted p) (close n p)
  unfolding merged
  close_lem p positive room full k =
      let ws = p.windows ++ p.opened ∷ [] in
      let all_ = All-last p.window_frames p.windows p.opened k full in
      let count = length-append p.windows (p.opened ∷ []) in
      let held = frames_of-append p.windows p.opened in
      elim (Bool-cases (ltb (length ws) capacity)) [
        | inl e ↦
            subst (Holds (counted p)) (sym (close-closed p e)) (
              (((ground (arith, e), omega (arith, positive)), all_), positive),
              omega (arith, held),
            )
        | inr e ↦
            let many : length ws ≡ 512 * 2 = ground (arith, e, room, count) in
            let paired = pairs_lem 512 p.window_frames ws many all_ in
            subst (Holds (counted p)) (sym (close-merged p e)) (
              (
                ((omega (arith, paired.0.0), omega (arith, positive)), paired.1),
                omega (arith, positive),
              ),
              omega (arith, paired.0.1, held),
            )
      ]

  abbrev with_sample : Power n → n.F32 → Power n
  with_sample p sample = record p {
    opened = record { sum = n.add64 p.opened.sum (n.squared sample); frames = p.opened.frames + 1 };
  }

  add_sample_lem :
      (p : Power n) (sample : n.F32) (frames : ℕ)
      → Holds frames p
      → Holds (frames + 1) (add_sample n p sample)
  unfolding add_sample
  add_sample_lem p sample frames ((((room, less), k), positive), count) =
      let next = with_sample p sample in
      elim (Bool-cases (p.opened.frames + 1 == p.window_frames)) [
        | inl e ↦
            let full : p.opened.frames + 1 ≡ p.window_frames = ground (arith, e) in
            let shut = close_lem next positive room full k in
            let same : add_sample n p sample ≡ close n next = rw e refl in
            subst (Holds (frames + 1)) (sym same) (shut.0, omega (arith, shut.1, count))
        | inr e ↦
            let same : add_sample n p sample ≡ next = rw e refl in
            subst (Holds (frames + 1)) (sym same)
              ((((room, ground (arith, e, less)), k), positive), omega (arith, count))
      ]

  add_samples_lem :
      (p : Power n) (samples : List n.F32) (frames : ℕ)
      → Holds frames p
      → Holds (frames + length samples) (add_samples n p samples)
  unfolding add_samples
  add_samples_lem p [] frames k = subst (λ m. Holds m p) (omega arith) k
  add_samples_lem p (sample ∷ samples) frames k =
      subst (λ m. Holds m (add_samples n (add_sample n p sample) samples)) (omega arith)
        (add_samples_lem (add_sample n p sample) samples (frames + 1)
          (add_sample_lem p sample frames k))

  close-frames : (p : Power n) → (close n p).frames ≡ p.frames
  unfolding close
  close-frames p = ground arith

  add_sample-frames : (p : Power n) (sample : n.F32) → (add_sample n p sample).frames ≡ p.frames
  unfolding add_sample
  add_sample-frames p sample = ground (arith, close-frames (with_sample p sample))

  add_samples-frames :
      (p : Power n) (samples : List n.F32) → (add_samples n p samples).frames ≡ p.frames
  unfolding add_samples
  add_samples-frames p [] = refl
  add_samples-frames p (sample ∷ samples) =
      add_samples-frames (add_sample n p sample) samples ∙ add_sample-frames p sample

  add-frames :
      (p : Power n) (samples : List n.F32) → (add n p samples).frames ≡ p.frames + length samples
  unfolding add
  add-frames p samples =
      add_samples-frames (record p { frames = p.frames + length samples }) samples

  add_lem :
      (p : Power n) (samples : List n.F32)
      → Holds p.frames p
      → Holds (add n p samples).frames (add n p samples)
  unfolding add
  add_lem p samples k =
      subst (λ m. Holds m (add n p samples)) (sym (add-frames p samples))
        (add_samples_lem (record p { frames = p.frames + length samples }) samples p.frames k)

  -- Each chunk of samples is added in turn.
  unfoldable pub add_all : Power n → List (List n.F32) → Power n
  unfolding add
  add_all p [] = p
  add_all p (samples ∷ chunks) = add_all (add n p samples) chunks

  unfoldable pub samples_in : List (List n.F32) → ℕ
  samples_in [] = 0
  samples_in (samples ∷ chunks) = length samples + samples_in chunks

  add_all-Holds :
      (p : Power n) (chunks : List (List n.F32))
      → Holds p.frames p
      → Holds (p.frames + samples_in chunks) (add_all p chunks)
  unfolding add_all samples_in
  add_all-Holds p [] k = subst (λ m. Holds m p) (omega arith) k
  add_all-Holds p (samples ∷ chunks) k =
      subst (λ m. Holds m (add_all (add n p samples) chunks)) (omega (arith, add-frames p samples))
        (add_all-Holds (add n p samples) chunks (add_lem p samples k))

  frames_of-all_windows : (p : Power n) → frames_of n (all_windows n p) ≡ counted p
  frames_of-all_windows p = ground (arith, frames_of-append p.windows p.opened)

  -- Where a window holds a frame: however the samples of a note come, fewer than 1024 windows are
  -- closed, each of as many frames as the power says, the open one has fewer, and the windows with
  -- the open one hold as many frames as samples came.
  pub add_all_lem :
      (frames : ℕ) (chunks : List (List n.F32))
      → 1 ≤ frames
      → IsPower (add_all (new n frames) chunks)
        × (frames_of n (all_windows n (add_all (new n frames) chunks)) ≡ samples_in chunks)
  unfolding frames_of
  add_all_lem frames chunks positive =
      let p = add_all (new n frames) chunks in
      let k =
        add_all-Holds (new n frames) chunks
          ((((ground arith, omega (arith, positive)), tt), positive), refl) in
      (k.0.0, omega (arith, frames_of-all_windows p, k.1))
