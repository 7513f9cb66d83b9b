-- ===== src/Player/Presses.antt =====
-- What plays, and which press's file (desktop/core/src/player.rs).
use Prim.{tt}
use fermix_linux.Base.{
  ℕ, ◌+◌, ◌≡◌, ◌==◌, refl, sym, subst, ap, ◌∙◌, Bool, true, false, ◌&&◌, List, [], ◌∷◌, Option,
  none, some, is_some, String, str_eq, arith, Option-cases, Bool-cases, inl, inr, if◌then◌else◌,
}
use fermix_linux.Player.{
  Asking, Held, Pressed, or_else, shown, Player, Seconds, call, default, granted, granted_asking,
  length_read, let_go, moved, press, press_held, seek, stop,
}

module _ (f : Seconds) where
  -- What the page and the pipeline do with the player, each with its arguments.
  pub data Act : Type 0 where
    presses lets_go : String → Act
    grants : ℕ → Act
    stops : Act
    calls : Bool → Act
    moves reads : f.F64 → Act
    seeks : String → f.F64 → Option f.F64 → Act

  unfoldable pub act : Player f → Act → Player f
  unfolding press granted let_go stop call moved length_read seek
  act p (Act.presses ref) = (press f p ref).0
  act p (Act.lets_go ref) = let_go f p ref
  act p (Act.grants n) = (granted f p n).0
  act p Act.stops = stop f p
  act p (Act.calls up) = call f p up
  act p (Act.moves seconds) = moved f p seconds
  act p (Act.reads seconds) = length_read f p seconds
  act p (Act.seeks ref seconds decoded) = (seek f p ref seconds decoded).0

  unfoldable pub run : Player f → List Act → Player f
  unfolding act
  run p [] = p
  run p (a ∷ acts) = run (act p a) acts

  -- While a call is up nothing is held or asked for.
  abbrev IsQuiet : Player f → Type 0
  IsQuiet p = p.call_up ≡ true → (is_some p.held ≡ false) × (is_some p.asking ≡ false)

  -- What a look at the acts and at what the presses answer tells: whether the last call told of is
  -- up, how many presses asked for a file, and the one of them that nothing has overtaken.
  pub record Story : Type 0 where
    pub up : Bool
    pub made : ℕ
    pub awaited : Option Asking

  abbrev opening : Story
  opening = record { up = false; made = 0; awaited = none }

  -- What a press answers; no other act answers so.
  abbrev seen : Player f → Act → Pressed
  seen p (Act.presses ref) = (press f p ref).1
  seen p _ = Pressed.nothing

  -- A press that asks is awaited in place of the one before.
  abbrev pressed : Story → String → Pressed → Story
  pressed s ref (Pressed.ask _) = record s {
    made = s.made + 1;
    awaited = some (record { press = s.made + 1; ref = ref });
  }
  pressed s ref _ = s

  abbrev without_ref : Option Asking → String → Option Asking
  without_ref none ref = none
  without_ref (some asking) ref = if str_eq asking.ref ref then none else some asking

  abbrev without_press : Option Asking → ℕ → Option Asking
  without_press none n = none
  without_press (some asking) n = if asking.press == n then none else some asking

  unfoldable goes_on : Story → Act → Pressed → Story
  goes_on s (Act.presses ref) answer = pressed s ref answer
  goes_on s (Act.lets_go ref) answer = record s { awaited = without_ref s.awaited ref }
  goes_on s (Act.grants n) answer = record s { awaited = without_press s.awaited n }
  goes_on s Act.stops answer = record s { awaited = none }
  goes_on s (Act.calls up) answer = record s { up = up; awaited = if up then none else s.awaited }
  goes_on s _ answer = s

  unfoldable tells : Player f → Story → List Act → Story
  unfolding act goes_on
  tells p s [] = s
  tells p s (a ∷ acts) = tells (act p a) (goes_on s a (seen p a)) acts

  -- The story of the acts from the start.
  pub story : List Act → Story
  unfolding tells
  story acts = tells (default f) opening acts

  press_held-call_up :
      (p : Player f) (ref : String) (held : Option (Held f))
      → (press_held f p ref held).0.call_up ≡ p.call_up
  unfolding press_held
  press_held-call_up p ref none = refl
  press_held-call_up p ref (some held) = ground arith

  granted_asking-IsQuiet :
      (p : Player f) (n : ℕ) (asking : Option Asking)
      → (p.call_up ≡ true → is_some asking ≡ false)
      → IsQuiet p
      → IsQuiet (granted_asking f p n asking).0
  unfolding granted_asking
  granted_asking-IsQuiet p n none h k = k
  granted_asking-IsQuiet p n (some asking) h k = ground (arith, h, k)

  moved-IsQuiet : (p : Player f) (seconds : f.F64) → IsQuiet p → IsQuiet (moved f p seconds)
  unfolding moved
  moved-IsQuiet p seconds k = elim (Option-cases p.held) [
    | inl e ↦ ground (arith, e, k)
    | inr (held, e) ↦ ground (arith, e, k)
  ]

  length_read-IsQuiet :
      (p : Player f) (seconds : f.F64) → IsQuiet p → IsQuiet (length_read f p seconds)
  unfolding length_read
  length_read-IsQuiet p seconds k = elim (Option-cases p.held) [
    | inl e ↦ ground (arith, e, k)
    | inr (held, e) ↦ ground (arith, e, k)
  ]

  seek-moved :
      (P : Player f → Type 0) (p : Player f) (ref : String) (seconds : f.F64)
      (decoded : Option f.F64)
      → P p
      → ((s : f.F64) → P (moved f p s))
      → P (seek f p ref seconds decoded).0
  unfolding seek
  seek-moved P p ref seconds decoded k h =
      ground (arith, k, h (f.lesser seconds (or_else f (shown f p ref decoded).length f.infinity)))

  act-IsQuiet : (p : Player f) (a : Act) → IsQuiet p → IsQuiet (act p a)
  unfolding act let_go stop call press
  act-IsQuiet p (Act.presses ref) k = elim (Bool-cases p.call_up) [
    | inl e ↦ ground (arith, e, k)
    | inr e ↦ ground (arith, e, press_held-call_up p ref p.held)
  ]
  act-IsQuiet p (Act.lets_go ref) k = ground (arith, k)
  act-IsQuiet p (Act.grants n) k = granted_asking-IsQuiet p n p.asking (λ e. (k e).1) k
  act-IsQuiet p Act.stops k = ground arith
  act-IsQuiet p (Act.calls up) k = ground (arith, k)
  act-IsQuiet p (Act.moves seconds) k = moved-IsQuiet p seconds k
  act-IsQuiet p (Act.reads seconds) k = length_read-IsQuiet p seconds k
  act-IsQuiet p (Act.seeks ref seconds decoded) k =
      seek-moved IsQuiet p ref seconds decoded k (λ s. moved-IsQuiet p s k)

  run_lem :
      (P : Player f → Type 0)
      → ((p : Player f) (a : Act) → P p → P (act p a))
      → (p : Player f) (acts : List Act) → P p
      → P (run p acts)
  unfolding run
  run_lem P h p [] k = k
  run_lem P h p (a ∷ acts) k = run_lem P h (act p a) acts (h p a k)

  abbrev told : Player f → Story
  told p = record { up = p.call_up; made = p.presses; awaited = p.asking }

  press_held-told :
      (p : Player f) (ref : String) (held : Option (Held f))
      → told (press_held f p ref held).0 ≡ pressed (told p) ref (press_held f p ref held).1
  unfolding press_held
  press_held-told p ref none = refl
  press_held-told p ref (some held) = elim (Bool-cases (str_eq held.ref ref)) [
    | inl e ↦ elim (Bool-cases held.playing) [ inl h ↦ rw (e, h) refl | inr h ↦ rw (e, h) refl ]
    | inr e ↦ rw (e) refl
  ]

  granted_asking-told :
      (p : Player f) (n : ℕ) (asking : Option Asking)
      → p.asking ≡ asking
      → told (granted_asking f p n asking).0 ≡ record (told p) { awaited = without_press asking n }
  unfolding granted_asking
  granted_asking-told p n none h = rw (sym h) refl
  granted_asking-told p n (some asking) h = elim (Bool-cases (asking.press == n)) [
    | inl e ↦ rw (e) refl
    | inr e ↦ rw (e, sym h) refl
  ]

  let_go-told :
      (p : Player f) (ref : String) (asking : Option Asking)
      → p.asking ≡ asking
      → (let_go f p ref).asking ≡ without_ref asking ref
  unfolding let_go
  let_go-told p ref none h = rw (h) refl
  let_go-told p ref (some asking) h = rw (h) refl

  length_read-told : (p : Player f) (seconds : f.F64) → told (length_read f p seconds) ≡ told p
  unfolding length_read
  length_read-told p seconds = elim (Option-cases p.held) [
    | inl e ↦ ground (arith, e)
    | inr (held, e) ↦ ground (arith, e)
  ]

  press_open :
      (p : Player f) (ref : String) → p.call_up ≡ false → press f p ref ≡ press_held f p ref p.held
  unfolding press
  press_open p ref e = ground (arith, e)

  act-told : (p : Player f) (a : Act) → told (act p a) ≡ goes_on (told p) a (seen p a)
  unfolding act goes_on stop call press granted let_go moved
  act-told p (Act.presses ref) = elim (Bool-cases p.call_up) [
    | inl e ↦ rw (e) refl
    | inr e ↦
        subst (λ next. told next.0 ≡ pressed (told p) ref next.1) (sym (press_open p ref e))
          (press_held-told p ref p.held)
  ]
  act-told p (Act.lets_go ref) = ground (arith, let_go-told p ref p.asking refl)
  act-told p (Act.grants n) = granted_asking-told p n p.asking refl
  act-told p Act.stops = refl
  act-told p (Act.calls true) = refl
  act-told p (Act.calls false) = refl
  act-told p (Act.moves seconds) = refl
  act-told p (Act.reads seconds) = length_read-told p seconds
  act-told p (Act.seeks ref seconds decoded) =
      seek-moved (λ next. told next ≡ told p) p ref seconds decoded refl (λ s. refl)

  run-told : (p : Player f) (acts : List Act) → told (run p acts) ≡ tells p (told p) acts
  unfolding run tells
  run-told p [] = refl
  run-told p (a ∷ acts) = run-told (act p a) acts ∙ ap (λ s. tells (act p a) s acts) (act-told p a)

  -- What a grant does, by whether it is of the press that is awaited: its note plays from its
  -- start; and for any other, nothing.
  PlaysIf : Player f → String → Bool → Player f × Bool → Type 0
  PlaysIf p ref false next = next ≡ (p, false)
  PlaysIf p ref true next =
      (next.1 ≡ true)
      × (next.0.held ≡ some (record { ref = ref; playing = true; position = f.zero }))

  pub Plays : Player f → ℕ → Option Asking → Player f × Bool → Type 0
  unfolding PlaysIf
  Plays p n none next = next ≡ (p, false)
  Plays p n (some asking) next = PlaysIf p asking.ref (asking.press == n) next

  granted_asking-Plays :
      (p : Player f) (n : ℕ) (asking : Option Asking)
      → Plays p n asking (granted_asking f p n asking)
  unfolding granted_asking Plays PlaysIf
  granted_asking-Plays p n none = refl
  granted_asking-Plays p n (some asking) = elim (Bool-cases (asking.press == n)) [
    | inl e ↦ rw (e) (refl, refl)
    | inr e ↦ rw (e) refl
  ]

  -- The number that a press asks with.
  pub AsksWith : ℕ → Pressed → Type 0
  AsksWith n (Pressed.ask m) = m ≡ n
  AsksWith n _ = Unit

  press-AsksWith : (p : Player f) (ref : String) → AsksWith (p.presses + 1) (press f p ref).1
  unfolding press press_held AsksWith
  press-AsksWith p ref = elim (Bool-cases p.call_up) [
    | inl e ↦ rw (e) tt
    | inr e ↦ elim (Option-cases p.held) [
      | inl h ↦ rw (e, h) refl
      | inr (held, h) ↦ elim (Bool-cases (str_eq held.ref ref)) [
        | inl same ↦ elim (Bool-cases held.playing) [
          | inl on ↦ rw (e, h, same, on) tt
          | inr off ↦ rw (e, h, same, off) tt
        ]
        | inr other ↦ rw (e, h, other) refl
      ]
    ]
  ]

  run-IsQuiet : (acts : List Act) → IsQuiet (run (default f) acts)
  run-IsQuiet acts = run_lem IsQuiet act-IsQuiet (default f) acts (ground arith)

  -- After any presses, grants, files let go and calls: while the last call told of is up no note
  -- is held or asked for, so none plays. A press that asks for a file is numbered by how many did
  -- so. A grant plays the note of a press only where that is the last one that asked and since
  -- then its file was not granted or let go, nothing stopped the player and no call came up; any
  -- other grant changes nothing.
  pub run-granted :
      (acts : List Act) (ref : String) (n : ℕ)
      → let p = run (default f) acts in
        ((is_some p.held && (story acts).up) ≡ false)
        × ((is_some p.asking && (story acts).up) ≡ false)
        × AsksWith ((story acts).made + 1) (press f p ref).1
        × Plays p n (story acts).awaited (granted f p n)
  unfolding granted story
  run-granted acts ref n =
      let p = run (default f) acts in
      let s = tells (default f) opening acts in
      let same : told p ≡ s = run-told (default f) acts in
      let up : p.call_up ≡ s.up = ap (λ (s : Story). s.up) same in
      let made : p.presses ≡ s.made = ap (λ (s : Story). s.made) same in
      let awaited : p.asking ≡ s.awaited = ap (λ (s : Story). s.awaited) same in
      (
        ground (arith, up, run-IsQuiet acts),
        ground (arith, up, run-IsQuiet acts),
        subst (λ m. AsksWith (m + 1) (press f p ref).1) made (press-AsksWith p ref),
        subst (λ a. Plays p n a (granted_asking f p n p.asking)) awaited
            (granted_asking-Plays p n p.asking),
      )
