-- ===== src/Realtime/Speech.antt =====
-- The speech gate (desktop/core/src/realtime/speech.rs): which frames are voice, the frames that
-- wait for that, and the blocks that go out. The two decimators with the samples that do not make a
-- frame yet and the voice detector, which come before, are not here.
pub mod Near
pub mod Sent
mod Tests
use fermix_linux.Base.{
  ℕ, zero, suc, ◌+◌, ◌-◌, ◌*◌, ◌/◌, ◌%◌, ◌^◌, Bool, true, false, List, [], ◌∷◌, ◌++◌, Option, none,
  some, leb, ltb, replicate, if◌then◌else◌, length, map, take, drop, ◌>>=◌,
}
use fermix_linux.Base.Int.{ℤ, pos, negsuc}

abbrev pub wire_frame : ℕ
wire_frame = 384

abbrev pub pre_roll_frames : ℕ
pre_roll_frames = 10

abbrev pub hangover_frames : ℕ
hangover_frames = 15

pub record SpeechGate : Type 0 where
  pub frames : ℕ
  pub latest_voice : Option ℕ

abbrev pub new : SpeechGate
new = record { frames = 0; latest_voice = none }

-- `frame.checked_sub(n)`
abbrev pub checked_sub : ℕ → ℕ → Option ℕ
checked_sub frame n = if leb n frame then some (frame - n) else none

-- `latest_voice.is_some_and(…)`
abbrev pub reaches : Option ℕ → ℕ → Bool
reaches none decided = false
reaches (some v) decided = leb decided (v + hangover_frames)

unfoldable pub push : SpeechGate → Bool → SpeechGate × Option Bool
push gate voiced =
    let frame = gate.frames in
    let latest = if voiced then some frame else gate.latest_voice in
    (
      record { frames = frame + 1; latest_voice = latest },
      elim (checked_sub frame pre_roll_frames) [
        | none ↦ none
        | some decided ↦ some (reaches latest decided)
      ],
    )

-- The gate, the wire frames that wait and the samples decided.
pub record Uplink : Type 0 where
  pub gate : SpeechGate
  pub waiting : List (List ℤ)
  pub decided : List ℤ

abbrev pub silence : List ℤ
silence = replicate wire_frame (pos 0)

-- What `decide` does with the gate's word; `none` is the failed `expect`.
unfoldable pub send_on : Uplink → Option Bool → Option Uplink
send_on u none = some u
send_on u (some voice) = elim u.waiting [
  | [] ↦ none
  | frame ∷ rest ↦
      some (record u { waiting = rest; decided = u.decided ++ (if voice then frame else silence) })
]

unfoldable pub decide : Uplink → List ℤ → Bool → Option Uplink
decide u wire voiced =
    let pushed = push u.gate voiced in
    send_on (record u { gate = pushed.0; waiting = u.waiting ++ wire ∷ [] }) pushed.1

-- `fill(0)`
abbrev pub zeros : List ℤ → List ℤ
zeros samples = map (λ _. pos 0) samples

-- The frames that wait and the samples decided; the decimator and its samples are not here.
unfoldable pub silence_held : Uplink → Uplink
silence_held u = record u { waiting = map zeros u.waiting; decided = zeros u.decided }

-- `CHUNK_BYTES`, 4800, by 2
abbrev pub chunk_samples : ℕ
chunk_samples = 2400

abbrev pub to_u16 : ℤ → ℕ
to_u16 (pos n) = n % 2 ^ 16
to_u16 (negsuc n) = (2 ^ 16 - 1) - n % 2 ^ 16

-- `flat_map(|s| s.to_le_bytes())`
unfoldable pub le_bytes : List ℤ → List ℕ
le_bytes [] = []
le_bytes (s ∷ samples) = to_u16 s % 256 ∷ to_u16 s / 256 ∷ le_bytes samples

-- The first `n` of `as_chunks::<CHUNK_SAMPLES>()`, as bytes.
unfoldable pub chunks : ℕ → List ℤ → List (List ℕ)
unfolding le_bytes
chunks zero samples = []
chunks (suc n) samples =
    le_bytes (take chunk_samples samples) ∷ chunks n (drop chunk_samples samples)

unfoldable pub whole_blocks : Uplink → Uplink × List (List ℕ)
unfolding chunks
whole_blocks u =
    let n = length u.decided / chunk_samples in
    (record u { decided = drop (n * chunk_samples) u.decided }, chunks n u.decided)

-- A frame of the wire with its verdict.
abbrev pub Frame : Type 0
Frame = List ℤ × Bool

unfoldable pub decide_all : Uplink → List Frame → Option Uplink
unfolding decide
decide_all u [] = some u
decide_all u (frame ∷ frames) = decide u frame.0 frame.1 >>= λ next. decide_all next frames

-- `Uplink::push`, from the frames that the capture completes, oldest first.
unfoldable pub push_frames : Uplink → Bool → List Frame → Option (Uplink × List (List ℕ))
unfolding silence_held decide_all whole_blocks
push_frames u audible frames =
    decide_all (if audible then u else silence_held u) frames >>= λ next. some (whole_blocks next)
