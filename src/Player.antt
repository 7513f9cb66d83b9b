-- ===== src/Player.antt =====
-- The chat page's player of voice notes (desktop/core/src/player.rs).
pub mod Presses
mod Tests
use fermix_linux.Base.{
  ℕ, ◌+◌, ◌-◌, ◌*◌, ◌/◌, ◌%◌, Bool, true, false, not, ◌&&◌, ◌||◌, List, [], ◌∷◌, Option, none, some,
  is_some, String, ◌+++◌, str_eq, decimal, ◌==◌, ltb, if◌then◌else◌,
}

-- The operations of `f64` that the player uses, a parameter.
pub record Seconds : Type 1 where
  pub F64 : Type 0
  pub zero : F64
  pub one : F64
  -- `STEP`, 5.0
  pub step : F64
  pub infinity : F64
  pub neg : F64 → F64
  pub add : F64 → F64 → F64
  pub mul : F64 → F64 → F64
  pub div : F64 → F64 → F64
  -- `f64::max`, `f64::min`, and `clamp` of its last argument
  pub greater : F64 → F64 → F64
  pub lesser : F64 → F64 → F64
  pub clamp : F64 → F64 → F64 → F64
  pub is_finite : F64 → Bool
  -- `>` and `>=`
  pub gt : F64 → F64 → Bool
  pub ge : F64 → F64 → Bool
  -- `round_ties_even() as u64`
  pub rounded : F64 → ℕ

abbrev pub tick_ms : ℕ
tick_ms = 250

pub record Held (f : Seconds) : Type 0 where
  pub ref : String
  pub playing : Bool
  pub position : f.F64

pub record Asking : Type 0 where
  pub press : ℕ
  pub ref : String

pub data Pressed : Type 0 where
  nothing pause resume : Pressed
  ask : ℕ → Pressed

-- `lengths` is a map, each ref once.
pub record Player (f : Seconds) : Type 0 where
  pub held : Option (Held f)
  pub asking : Option Asking
  pub presses : ℕ
  pub call_up : Bool
  pub lengths : List (String × f.F64)

pub data Key : Type 0 where
  left right home last : Key

pub record Shown (f : Seconds) : Type 0 where
  pub held : Bool
  pub playing : Bool
  pub position : f.F64
  pub length : Option f.F64

module _ (f : Seconds) where
  abbrev pub default : Player f
  default = record { held = none; asking = none; presses = 0; call_up = false; lengths = [] }

  abbrev pub is_of : String → Option (Held f) → Bool
  is_of ref none = false
  is_of ref (some held) = str_eq held.ref ref

  abbrev pub holds : Player f → String → Bool
  holds p ref = is_of ref p.held

  abbrev pub toggled : Held f → Held f
  toggled held = record held { playing = not held.playing }

  -- The file is asked for.
  abbrev pub asked : Player f → String → Player f × Pressed
  asked p ref = (
    record p {
      presses = p.presses + 1;
      asking = some (record { press = p.presses + 1; ref = ref });
    },
    Pressed.ask (p.presses + 1),
  )

  -- `press`, past the call, by what is held.
  unfoldable pub press_held : Player f → String → Option (Held f) → Player f × Pressed
  press_held p ref none = asked p ref
  press_held p ref (some note) =
      if str_eq note.ref ref
      then (
        record p { held = some (toggled note) },
        if not note.playing then Pressed.resume else Pressed.pause,
      )
      else asked p ref

  unfoldable pub press : Player f → String → Player f × Pressed
  unfolding press_held
  press p ref = if p.call_up then (p, Pressed.nothing) else press_held p ref p.held

  -- `granted`, by what is asked for.
  unfoldable pub granted_asking : Player f → ℕ → Option Asking → Player f × Bool
  granted_asking p press none = (p, false)
  granted_asking p press (some asking) =
      if asking.press == press
      then (
        record p {
          asking = none;
          held = some (record { ref = asking.ref; playing = true; position = f.zero });
        },
        true,
      )
      else (p, false)

  unfoldable pub granted : Player f → ℕ → Player f × Bool
  unfolding granted_asking
  granted p press = granted_asking p press p.asking

  abbrev pub is_asked : String → Option Asking → Bool
  is_asked ref none = false
  is_asked ref (some asking) = str_eq asking.ref ref

  unfoldable pub let_go : Player f → String → Player f
  let_go p ref = record p {
    held = if is_of ref p.held then none else p.held;
    asking = if is_asked ref p.asking then none else p.asking;
  }

  unfoldable pub stop : Player f → Player f
  stop p = record p { held = none; asking = none }

  unfoldable pub call : Player f → Bool → Player f
  unfolding stop
  call p up = let now = record p { call_up = up } in if up then stop now else now

  abbrev pub moved_held : f.F64 → Option (Held f) → Option (Held f)
  moved_held seconds none = none
  moved_held seconds (some held) = some (record held { position = f.greater seconds f.zero })

  unfoldable pub moved : Player f → f.F64 → Player f
  moved p seconds = record p { held = moved_held seconds p.held }

  -- `HashMap::insert`
  unfoldable pub insert : String → f.F64 → List (String × f.F64) → List (String × f.F64)
  insert ref seconds [] = (ref, seconds) ∷ []
  insert ref seconds ((other, old) ∷ lengths) =
      let rest = insert ref seconds lengths in
      if str_eq ref other then (ref, seconds) ∷ lengths else (other, old) ∷ rest

  -- `HashMap::get`
  unfoldable pub length_of : String → List (String × f.F64) → Option f.F64
  length_of ref [] = none
  length_of ref ((other, seconds) ∷ lengths) =
      let rest = length_of ref lengths in if str_eq ref other then some seconds else rest

  unfoldable pub length_read : Player f → f.F64 → Player f
  unfolding insert
  length_read p seconds =
      if not (f.is_finite seconds && f.gt seconds f.zero) then p else elim p.held [
        | none ↦ p
        | some held ↦ record p { lengths = insert held.ref seconds p.lengths }
      ]

  abbrev pub or {ℓ} : {A : Type ℓ} → Option A → Option A → Option A
  or none y = y
  or (some x) y = some x

  abbrev pub or_else {ℓ} : {A : Type ℓ} → Option A → A → A
  or_else none y = y
  or_else (some x) y = x

  abbrev pub still : Option f.F64 → Shown f
  still length = record { held = false; playing = false; position = f.zero; length = length }

  -- `shown`, by what is held and the length.
  abbrev pub shown_held : String → Option (Held f) → Option f.F64 → Shown f
  shown_held ref none length = still length
  shown_held ref (some held) length =
      if str_eq held.ref ref
      then record { held = true; playing = held.playing; position = held.position; length = length }
      else still length

  unfoldable pub shown : Player f → String → Option f.F64 → Shown f
  unfolding length_of
  shown p ref decoded = shown_held ref p.held (or decoded (length_of ref p.lengths))

  abbrev pub place_of : Option (Held f) → Option f.F64
  place_of none = none
  place_of (some held) = some held.position

  unfoldable pub seek : Player f → String → f.F64 → Option f.F64 → Player f × Option f.F64
  unfolding shown moved
  seek p ref seconds decoded =
      let next = moved p (f.lesser seconds (or_else (shown p ref decoded).length f.infinity)) in
      if p.call_up || not (holds p ref) then (p, none) else (next, place_of next.held)

  unfoldable pub under_way : Shown f → Bool
  under_way s = s.held && (s.playing || f.gt s.position f.zero)

  unfoldable pub shown_time : Shown f → Option f.F64
  unfolding under_way
  shown_time s = if under_way s then some s.position else s.length

  unfoldable pub filled : Shown f → f.F64
  filled s = elim s.length [
    | none ↦ f.zero
    | some length ↦
        if s.held && f.gt length f.zero
        then f.clamp f.zero f.one (f.div s.position length)
        else f.zero
  ]

  unfoldable pub at : Shown f → f.F64 → Option f.F64
  at s fraction = elim s.length [
    | none ↦ none
    | some length ↦ some (f.mul length (f.clamp f.zero f.one fraction))
  ]

  -- The length that a step is held to.
  abbrev pub end_of : Option f.F64 → f.F64
  end_of none = f.infinity
  end_of (some length) = if f.ge length f.zero then length else f.infinity

  unfoldable pub stepped : Shown f → Bool → f.F64
  stepped s forward =
      f.clamp f.zero (end_of s.length) (f.add s.position (if forward then f.step else f.neg f.step))

  unfoldable pub keyed : Shown f → Key → Option f.F64
  unfolding stepped at
  keyed s Key.left = some (stepped s false)
  keyed s Key.right = some (stepped s true)
  keyed s Key.home = some f.zero
  keyed s Key.last = at s f.one

  -- `{:02}`
  abbrev pub two_digits : ℕ → String
  two_digits n = if ltb n 10 then "0" +++ decimal n else decimal n

  -- `written`, of whole seconds.
  unfoldable pub written_whole : ℕ → String
  written_whole whole =
      let minutes = whole / 60 % 60 in
      let rest = two_digits (whole % 60) in
      if ltb 0 (whole / 3600)
      then decimal (whole / 3600) +++ ":" +++ two_digits minutes +++ ":" +++ rest
      else decimal minutes +++ ":" +++ rest

  unfoldable pub written : f.F64 → String
  unfolding written_whole
  written seconds =
      written_whole (if f.is_finite seconds then f.rounded (f.greater seconds f.zero) else 0)
