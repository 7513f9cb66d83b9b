-- ===== src/Waveform.antt =====
-- A voice note's waveform (desktop/core/src/waveform.rs).
pub mod Windows
mod Tests
use fermix_linux.Base.{
  ℕ, suc, zero, ◌+◌, ◌-◌, ◌*◌, ◌/◌, Bool, true, false, not, ◌&&◌, ◌||◌, List, [], ◌∷◌, ◌++◌, Option,
  none, some, String, ◌+++◌, decimal, ◌==◌, ltb, leb, if◌then◌else◌, length, take, drop, map,
  replicate, is_empty, min, max, ◌⊎◌, inl, inr,
}

-- The operations of `f32` and `f64` that a waveform uses, a parameter.
pub record Numbers : Type 1 where
  pub F32 : Type 0
  pub F64 : Type 0
  -- `FLOOR`, `QUIET_TOP`, `RESTING`, 0.0 and 1.0
  pub floor_level : F32
  pub quiet_top : F32
  pub resting : F32
  pub zero_level : F32
  pub one_level : F32
  -- `f64::from(sample * sample)`, and `(10.0 * p.log10()) as f32`
  pub squared : F32 → F64
  pub decibels : F64 → F32
  pub greater : F32 → F32 → F32
  pub sub : F32 → F32 → F32
  pub div : F32 → F32 → F32
  pub clamp : F32 → F32 → F32 → F32
  -- 0.0, what `Iterator::sum` starts from, and 1.0
  pub zero64 : F64
  pub sum_start : F64
  pub one64 : F64
  pub add64 : F64 → F64 → F64
  pub sub64 : F64 → F64 → F64
  pub mul64 : F64 → F64 → F64
  pub div64 : F64 → F64 → F64
  pub greater64 : F64 → F64 → F64
  pub clamp64 : F64 → F64 → F64 → F64
  pub of_count : ℕ → F64
  pub of_level : F32 → F64
  pub is_finite : F64 → Bool
  pub is_nan : F64 → Bool
  pub is_nan_level : F32 → Bool
  -- `> 0.0` and `< 0.0`
  pub is_positive : F64 → Bool
  pub is_negative : F64 → Bool
  pub floor : F64 → F64
  pub round : F64 → F64
  -- `as usize`
  pub to_count : F64 → ℕ
  -- `BAR_WIDTH`, `BAR_GAP` and `BAR_MINIMUM`
  pub bar_width : F64
  pub bar_gap : F64
  pub bar_minimum : F64

abbrev pub buckets : ℕ
buckets = 80

abbrev pub rate : ℕ
rate = 8000

abbrev pub window_frames : ℕ
window_frames = rate / 100

abbrev pub capacity : ℕ
capacity = 1024

abbrev pub max_frames : ℕ
max_frames = 10 * 60 * rate

abbrev pub max_bytes : ℕ
max_bytes = 50 * 1024 * 1024

-- One range of `spans`, from its start up to its end.
abbrev pub span : ℕ → ℕ → ℕ → ℕ × ℕ
span count parts part =
    let lower = part * count / parts in
    (lower, min (max ((part + 1) * count / parts) (lower + 1)) count)

-- The ranges from a part on, as many as are asked for.
unfoldable pub spans_from : ℕ → ℕ → ℕ → ℕ → List (ℕ × ℕ)
spans_from count parts part zero = []
spans_from count parts part (suc more) =
    span count parts part ∷ spans_from count parts (part + 1) more

abbrev pub spans : ℕ → ℕ → List (ℕ × ℕ)
unfolding spans_from
spans count parts = spans_from count parts 0 parts

-- `items[span]`
abbrev pub slice {ℓ} : {A : Type ℓ} → List A → ℕ × ℕ → List A
slice items (lower, upper) = take (upper - lower) (drop lower items)

pub data Unheard : Type 0 where
  too_big : ℕ → Unheard
  too_long silent : Unheard
  undecodable : String → Unheard

abbrev pub falls_back : Unheard → Bool
falls_back (Unheard.undecodable why) = true
falls_back _ = false

-- `Display`
unfoldable pub display : Unheard → String
display (Unheard.too_big bytes) = decimal bytes +++ " bytes is past " +++ decimal max_bytes
display Unheard.too_long = "longer than " +++ decimal max_frames +++ " frames"
display Unheard.silent = "decoded to nothing"
display (Unheard.undecodable why) = "not decoded: " +++ why

abbrev pub admit : ℕ → Option Unheard
admit bytes = if ltb max_bytes bytes then some (Unheard.too_big bytes) else none

module _ (n : Numbers) where
  pub record Levels : Type 0 where
    pub values : List n.F32
    pub seconds : n.F64

  -- The decibels of one stretch.
  abbrev pub level_of : n.F64 → n.F32
  level_of p = if n.is_finite p && n.is_positive p then n.decibels p else n.floor_level

  -- `fold(_, f32::max)`
  unfoldable pub greatest : n.F32 → List n.F32 → n.F32
  greatest best [] = best
  greatest best (x ∷ xs) = greatest (n.greater best x) xs

  -- A level between the floor and the top.
  abbrev pub scaled : n.F32 → n.F32 → n.F32
  scaled top db =
      n.clamp n.zero_level n.one_level (n.div (n.sub db n.floor_level) (n.sub top n.floor_level))

  unfoldable pub from_power : List n.F64 → n.F64 → Levels
  unfolding greatest
  from_power power seconds =
      let levels = map level_of power in
      let top = n.greater (greatest n.floor_level levels) n.quiet_top in
      record { values = map (scaled top) levels; seconds = seconds }

  unfoldable pub bars : Levels → ℕ → List n.F32
  unfolding greatest spans_from
  bars levels count =
      map (λ part. greatest n.zero_level (slice levels.values part))
        (spans (length levels.values) count)

  pub record Window : Type 0 where
    pub sum : n.F64
    pub frames : ℕ

  abbrev pub empty_window : Window
  empty_window = record { sum = n.zero64; frames = 0 }

  pub record Power : Type 0 where
    pub window_frames : ℕ
    pub frames : ℕ
    pub windows : List Window
    pub opened : Window

  -- The assertion that a window holds a frame is the caller's.
  abbrev pub new : ℕ → Power
  new frames = record { window_frames = frames; frames = 0; windows = []; opened = empty_window }

  abbrev pub joined : Window → Window → Window
  joined a b = record { sum = n.add64 a.sum b.sum; frames = a.frames + b.frames }

  -- `as_chunks::<2>` and `map`: a window left over is dropped.
  unfoldable pub pairs : List Window → List Window
  pairs [] = []
  pairs (a ∷ []) = []
  pairs (a ∷ b ∷ windows) = joined a b ∷ pairs windows

  unfoldable pub close : Power → Power
  unfolding pairs
  close p =
      let windows = p.windows ++ p.opened ∷ [] in
      if ltb (length windows) capacity
      then record p { windows = windows; opened = empty_window }
      else record p {
        windows = pairs windows;
        opened = empty_window;
        window_frames = p.window_frames * 2;
      }

  -- One sample of `add`.
  unfoldable pub add_sample : Power → n.F32 → Power
  unfolding close
  add_sample p sample =
      let next = record p {
        opened = record {
          sum = n.add64 p.opened.sum (n.squared sample);
          frames = p.opened.frames + 1;
        };
      } in
      if p.opened.frames + 1 == p.window_frames then close next else next

  unfoldable pub add_samples : Power → List n.F32 → Power
  unfolding add_sample
  add_samples p [] = p
  add_samples p (sample ∷ samples) = add_samples (add_sample p sample) samples

  unfoldable pub add : Power → List n.F32 → Power
  unfolding add_samples
  add p samples = add_samples (record p { frames = p.frames + length samples }) samples

  unfoldable pub sum_of : n.F64 → List Window → n.F64
  sum_of start [] = start
  sum_of start (w ∷ windows) = sum_of (n.add64 start w.sum) windows

  unfoldable pub frames_of : List Window → ℕ
  frames_of [] = 0
  frames_of (w ∷ windows) = w.frames + frames_of windows

  unfoldable pub mean : List Window → n.F64
  unfolding sum_of frames_of
  mean windows =
      if frames_of windows == 0
      then n.zero64
      else n.div64 (sum_of n.sum_start windows) (n.of_count (frames_of windows))

  -- The windows, the one still open among them.
  abbrev pub all_windows : Power → List Window
  all_windows p = if ltb 0 p.opened.frames then p.windows ++ p.opened ∷ [] else p.windows

  unfoldable pub stretches : Power → ℕ → List n.F64
  unfolding mean spans_from
  stretches p count =
      let all_ = all_windows p in
      if is_empty all_ then [] else map (λ part. mean (slice all_ part)) (spans (length all_) count)

  unfoldable pub heard : Power → Option String → Unheard ⊎ Levels
  unfolding from_power stretches
  heard p (some why) = inl (Unheard.undecodable why)
  heard p none =
      if ltb max_frames p.frames
      then inl Unheard.too_long
      else if p.frames == 0
      then inl Unheard.silent
      else inr (from_power (stretches p buckets) (n.div64 (n.of_count p.frames) (n.of_count rate)))

  unfoldable pub bars_fitting : n.F64 → ℕ
  bars_fitting width =
      let fitting = n.floor (n.div64 (n.add64 width n.bar_gap) (n.add64 n.bar_width n.bar_gap)) in
      if n.is_nan fitting || n.is_negative fitting then 0 else n.to_count fitting

  unfoldable pub bar_levels : Option Levels → ℕ → List n.F32
  unfolding bars
  bar_levels (some levels) count = bars levels count
  bar_levels none count = replicate count n.resting

  unfoldable pub played : n.F64 → ℕ → ℕ
  played fraction count =
      if n.is_nan fraction
      then 0
      else n.to_count (n.round (n.mul64 (n.clamp64 n.zero64 n.one64 fraction) (n.of_count count)))

  unfoldable pub bar_height : n.F32 → n.F64 → n.F64
  bar_height level height =
      let shown =
        if n.is_nan_level level then n.zero_level else n.clamp n.zero_level n.one_level level in
      n.add64 n.bar_minimum
        (n.mul64 (n.of_level shown) (n.greater64 (n.sub64 height n.bar_minimum) n.zero64))
