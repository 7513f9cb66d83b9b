-- ===== src/Realtime/Level.antt =====
-- The levels of PCM16 LE audio, and whether it carries voice (the free functions of
-- desktop/core/src/realtime/playback.rs, and `meter` of session.rs).
use fermix_linux.Base.{
  ℕ, ◌+◌, ◌-◌, ◌*◌, ◌/◌, Bool, ◌&&◌, not, List, [], ◌∷◌, map, leb, length, is_empty, if◌then◌else◌,
}
use fermix_linux.Base.Floats.{Floats}

-- `as_chunks::<2>`, as unsigned 16-bit numbers: a trailing odd byte is left out.
unfoldable pub pairs : List ℕ → List ℕ
pairs [] = []
pairs (lo ∷ []) = []
pairs (lo ∷ hi ∷ bytes) = (lo + 256 * hi) ∷ pairs bytes

-- `i16::from_le_bytes(pair).unsigned_abs()`
pub unsigned_abs : ℕ → ℕ
unsigned_abs u = if leb 32768 u then 65536 - u else u

pub sum : List ℕ → ℕ
sum [] = 0
sum (x ∷ xs) = x + sum xs

abbrev pub voiced_rms : ℕ
voiced_rms = 100

abbrev pub sample_rate : ℕ
sample_rate = 24000

abbrev pub samples_per_ms : ℕ
samples_per_ms = sample_rate / 1000

-- The squares of at most 2 ^ 33 samples do not reach 2 ^ 64.
unfoldable pub voiced : List ℕ → Bool
unfolding pairs unsigned_abs sum
voiced pcm16 =
    let ps = pairs pcm16 in
    let squares = sum (map (λ u. unsigned_abs u * unsigned_abs u) ps) in
    not (is_empty ps) && leb (voiced_rms * voiced_rms * length ps) squares

-- `saturating_sub` is the subtraction of ℕ
pub played_ms : ℕ → ℕ → ℕ
played_ms played_samples sink_latency_ms = played_samples / samples_per_ms - sink_latency_ms

module _ (fl : Floats) where
  open fl use {
    F32, F64, lit, neg, add, sub, mul, div, log10, le, lesser, clamp, sum_start, f64_of, neg64,
    add64, mul64, div64, sqrt64, to_f32,
  }

  -- `f64::from(i16::from_le_bytes(pair))`
  f64_of_sample : ℕ → F64
  f64_of_sample u = if leb 32768 u then neg64 (f64_of (65536 - u)) else f64_of u

  square_sum : List ℕ → F64 → F64
  square_sum [] acc = acc
  square_sum (u ∷ us) acc =
      let sample = div64 (f64_of_sample u) (f64_of 32767) in
      square_sum us (add64 acc (mul64 sample sample))

  unfoldable pub rms : List ℕ → F32
  unfolding pairs f64_of_sample square_sum
  rms pcm16 =
      let ps = pairs pcm16 in
      if is_empty ps
      then lit 0 1
      else lesser (to_f32 (sqrt64 (div64 (square_sum ps sum_start) (f64_of (length ps))))) (lit 1 1)

  abbrev level_smoothing : F32
  level_smoothing = lit 35 100

  unfoldable pub smooth : F32 → F32 → F32
  smooth previous next =
      add (mul (sub (lit 1 1) level_smoothing) previous) (mul level_smoothing next)

  abbrev meter_floor_db : F32
  meter_floor_db = neg (lit 60 1)

  abbrev meter_ceiling_db : F32
  meter_ceiling_db = neg (lit 10 1)

  unfoldable pub meter : F32 → F32
  meter level =
      if le level (lit 0 1)
      then lit 0 1
      else clamp (lit 0 1) (lit 1 1) (
          div (sub (mul (lit 20 1) (log10 level)) meter_floor_db)
            (sub meter_ceiling_db meter_floor_db))
