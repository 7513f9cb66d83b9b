-- ===== src/Waveform/Tests.antt =====
-- The theorem on a note's power at a concrete input.
use fermix_linux.Base.{
  ℕ, ◌+◌, ◌-◌, ◌*◌, ◌/◌, ◌≡◌, refl, true, false, [], ◌∷◌, List, arith, max, min, ltb,
}
use fermix_linux.Waveform.{Numbers, all_windows, frames_of, new, spans, spans_from}
use fermix_linux.Waveform.Windows.{IsPower, add_all, add_all_lem, samples_in}

-- Natural numbers in place of floating point numbers.
abbrev whole : Numbers
whole = record {
  F32 = ℕ;
  F64 = ℕ;
  floor_level = 0;
  quiet_top = 1;
  resting = 1;
  zero_level = 0;
  one_level = 1;
  squared = λ n. n * n;
  decibels = λ n. n;
  greater = λ a b. max a b;
  sub = λ a b. a - b;
  div = λ a b. a / b;
  clamp = λ low high n. max low (min n high);
  zero64 = 0;
  sum_start = 0;
  one64 = 1;
  add64 = λ a b. a + b;
  sub64 = λ a b. a - b;
  mul64 = λ a b. a * b;
  div64 = λ a b. a / b;
  greater64 = λ a b. max a b;
  clamp64 = λ low high n. max low (min n high);
  of_count = λ n. n;
  of_level = λ n. n;
  is_finite = λ n. true;
  is_nan = λ n. false;
  is_nan_level = λ n. false;
  is_positive = λ n. ltb 0 n;
  is_negative = λ n. false;
  floor = λ n. n;
  round = λ n. n;
  to_count = λ n. n;
  bar_width = 2;
  bar_gap = 2;
  bar_minimum = 3;
}

-- Two windows of two frames, and one frame of a third.
abbrev chunks : List (List ℕ)
chunks = (1 ∷ 2 ∷ 3 ∷ []) ∷ (4 ∷ 5 ∷ []) ∷ []

add_all_lem_example :
    IsPower whole (add_all whole (new whole 2) chunks)
    × (frames_of whole (all_windows whole (add_all whole (new whole 2) chunks)) ≡ 5)
unfolding samples_in
add_all_lem_example = add_all_lem whole 2 chunks (omega arith)

known_spans : spans 2 3 ≡ (0, 1) ∷ (0, 1) ∷ (1, 2) ∷ []
unfolding spans_from
known_spans = refl
