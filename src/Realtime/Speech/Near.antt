-- ===== src/Realtime/Speech/Near.antt =====
-- The gate's verdicts (desktop/core/src/realtime/speech.rs), beside a look at every frame near.
use fermix_linux.Base.{
  ℕ, zero, suc, ◌+◌, ◌-◌, ◌<◌, ◌≡◌, refl, Bool, true, false, List, [], ◌∷◌, Option, none, some,
  arith, leb, ltb, length, take, any, Option-cases, inl, inr, if◌then◌else◌,
}
use fermix_linux.Realtime.Speech.{SpeechGate, new, push, reaches, pre_roll_frames, hangover_frames}

-- What the gate was told, the newest verdict first.
abbrev pub heard : Bool → Bool
heard voiced = voiced

-- Whether a frame of those from `hangover_frames` before the decided one to `pre_roll_frames`
-- after it, the newest, was voiced.
pub near : List Bool → Bool
near verdicts = any heard (take (suc (pre_roll_frames + hangover_frames)) verdicts)

-- The gate after the verdicts.
unfoldable pub told : List Bool → SpeechGate
told [] = new
told (voiced ∷ verdicts) = (push (told verdicts) voiced).0

-- How many frames ago the latest voiced one was.
since : List Bool → Option ℕ
since [] = none
since (voiced ∷ verdicts) =
    let before = since verdicts in
    if voiced then some 0 else elim before [ some n ↦ some (suc n) | none ↦ none ]

since_lt : (verdicts : List Bool) (n : ℕ) → since verdicts ≡ some n → n < length verdicts
unfolding since
since_lt [] n h = cc
since_lt (true ∷ verdicts) n h = ground arith
since_lt (false ∷ verdicts) n h = elim (Option-cases (since verdicts)) [
  | inl e ↦ ground (arith, e)
  | inr (m, e) ↦ ground (arith, e, since_lt verdicts m e)
]

any-take-none :
    (m : ℕ) (verdicts : List Bool) → since verdicts ≡ none → any heard (take m verdicts) ≡ false
unfolding since
any-take-none zero verdicts h = refl
any-take-none (suc m) [] h = refl
any-take-none (suc m) (true ∷ verdicts) h = ground arith
any-take-none (suc m) (false ∷ verdicts) h = elim (Option-cases (since verdicts)) [
  | inl e ↦ any-take-none m verdicts e
  | inr (n, e) ↦ ground (arith, e)
]

any-take-some :
    (m : ℕ) (verdicts : List Bool) (n : ℕ)
    → since verdicts ≡ some n
    → any heard (take m verdicts) ≡ ltb n m
unfolding since
any-take-some zero verdicts n h = ground arith
any-take-some (suc m) [] n h = cc
any-take-some (suc m) (true ∷ verdicts) n h = ground arith
any-take-some (suc m) (false ∷ verdicts) n h = elim (Option-cases (since verdicts)) [
  | inl e ↦ ground (arith, e)
  | inr (k, e) ↦ ground (arith, e, any-take-some m verdicts k e)
]

told_frames : (verdicts : List Bool) → (told verdicts).frames ≡ length verdicts
unfolding told push
told_frames [] = refl
told_frames (voiced ∷ verdicts) = ground (arith, told_frames verdicts)

told-none : (verdicts : List Bool) → since verdicts ≡ none → (told verdicts).latest_voice ≡ none
unfolding told push since
told-none [] h = refl
told-none (true ∷ verdicts) h = ground arith
told-none (false ∷ verdicts) h = elim (Option-cases (since verdicts)) [
  | inl e ↦ told-none verdicts e
  | inr (n, e) ↦ ground (arith, e)
]

told-some :
    (verdicts : List Bool) (n : ℕ)
    → since verdicts ≡ some n
    → (told verdicts).latest_voice ≡ some (length verdicts - suc n)
unfolding told push since
told-some [] n h = cc
told-some (true ∷ verdicts) n h = ground (arith, told_frames verdicts)
told-some (false ∷ verdicts) n h = elim (Option-cases (since verdicts)) [
  | inl e ↦ ground (arith, e)
  | inr (m, e) ↦ ground (arith, e, told-some verdicts m e)
]

push-reaches :
    (gate : SpeechGate) (voiced : Bool)
    → (push gate voiced).1 ≡ (
        if leb pre_roll_frames gate.frames
        then some (reaches (push gate voiced).0.latest_voice (gate.frames - pre_roll_frames))
        else none)
unfolding push
push-reaches gate voiced = ground arith

reaches_lem :
    (verdicts : List Bool)
    → pre_roll_frames < length verdicts
    → reaches (told verdicts).latest_voice (length verdicts - suc pre_roll_frames) ≡ near verdicts
unfolding near
reaches_lem verdicts h = elim (Option-cases (since verdicts)) [
  | inl e ↦ ground (
    arith,
    told-none verdicts e,
    any-take-none (suc (pre_roll_frames + hangover_frames)) verdicts e,
  )
  | inr (n, e) ↦ ground (
    arith,
    told-some verdicts n e,
    since_lt verdicts n e,
    any-take-some (suc (pre_roll_frames + hangover_frames)) verdicts n e,
  )
]

-- The gate decides from its eleventh frame on, and then says whether any frame near the one that
-- it decides was voiced.
pub push-near :
    (verdicts : List Bool) (voiced : Bool)
    → (push (told verdicts) voiced).1
      ≡ (if leb pre_roll_frames (length verdicts) then some (near (voiced ∷ verdicts)) else none)
unfolding told
push-near verdicts voiced = ground (
  arith,
  push-reaches (told verdicts) voiced,
  told_frames verdicts,
  reaches_lem (voiced ∷ verdicts),
)
