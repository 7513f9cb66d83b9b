-- ===== src/Realtime/Session/Calling.antt =====
-- The order of a call's effects, and how calls begin and end on the wire.
use fermix_linux.Base.{
  ℕ, ◌+◌, ◌≤◌, ◌≡◌, refl, Bool, true, false, ◌||◌, List, [], ◌∷◌, ◌++◌, some, arith, if◌then◌else◌,
}
use fermix_linux.Base.Floats.{Floats}
use fermix_linux.Realtime.Protocol.{ClientEvent, ServerEvent}
use fermix_linux.Realtime.Client.{Incoming}
use fermix_linux.Realtime.Session.Data.{Effect, Input}
use fermix_linux.Realtime.Session.State.{Session, Outcome, new}
use fermix_linux.Realtime.Session.Returns.{Returns, of_Returns, run, run_inv}
use fermix_linux.Realtime.Session.Invariant.{IsValid, new-IsValid, apply-IsValid}
use fermix_linux.Realtime.Session.{event, apply}

-- Whether each effect of the second kind comes after one of the first.
abbrev pub preceded : (Effect → Bool) → (Effect → Bool) → List Effect → Bool
preceded before what [] = true
preceded before what (e ∷ es) = if what e then false else before e || preceded before what es

abbrev pub count : (Effect → Bool) → List Effect → ℕ
count what [] = 0
count what (e ∷ es) = (if what e then 1 else 0) + count what es

count-append :
    (what : Effect → Bool) (es fs : List Effect)
    → count what (es ++ fs) ≡ count what es + count what fs
count-append what [] fs = omega arith
count-append what (e ∷ es) fs = omega (arith, count-append what es fs)

abbrev pub is_shut : Effect → Bool
is_shut (Effect.arm false) = true
is_shut _ = false

abbrev pub is_stop_audio : Effect → Bool
is_stop_audio Effect.stop_audio = true
is_stop_audio _ = false

abbrev pub is_start_audio : Effect → Bool
is_start_audio Effect.start_audio = true
is_start_audio _ = false

abbrev pub is_flush : Effect → Bool
is_flush Effect.flush_playback = true
is_flush _ = false

abbrev pub is_report : Effect → Bool
is_report Effect.report_playback = true
is_report _ = false

abbrev pub is_call_start : Effect → Bool
is_call_start (Effect.send ClientEvent.call_start) = true
is_call_start _ = false

abbrev pub is_call_stop : Effect → Bool
is_call_stop (Effect.send ClientEvent.call_stop) = true
is_call_stop _ = false

abbrev pub is_interrupt : Effect → Bool
is_interrupt (Effect.send (ClientEvent.interrupt _)) = true
is_interrupt _ = false

-- What must come before what in one batch of effects.
pub record Ordered (es : List Effect) : Type 0 where
  pub shut_first : preceded is_shut is_call_stop es ≡ true
  pub silent_first : preceded is_stop_audio is_call_stop es ≡ true
  pub warm_first : preceded is_start_audio is_call_start es ≡ true
  pub flush_first : preceded is_flush is_interrupt es ≡ true
  pub report_first : preceded is_report is_interrupt es ≡ true

abbrev pub one_if : Bool → ℕ
one_if b = if b then 1 else 0

module _ (fl : Floats) where
  -- What one input does to the calls of the wire.
  record Steps (s : Session fl) (o : Outcome fl) : Type 0 where
    numbered : o.0.call_number ≡ s.call_number + count is_call_start o.1
    stops : count is_call_stop o.1 + one_if o.0.in_call ≤ count is_call_start o.1 + one_if s.in_call

  event-Ordered : (s : Session fl) (e : ServerEvent fl) → Ordered (event fl s e).1
  unfolding event
  event-Ordered s ServerEvent.playback_stop = ground arith
  event-Ordered s _ = ground arith

  Returns-Ordered : (s : Session fl) (i : Input fl) → Returns fl (λ o. Ordered o.1) (apply fl s i)
  unfolding apply
  Returns-Ordered s (Input.wire (Incoming.event e)) = event-Ordered s e
  Returns-Ordered s Input.begin = ground arith
  Returns-Ordered s _ = ground arith

  -- In the effects of any input, the microphone's gate is shut and the pipeline stopped before
  -- `call_stop` is sent, the pipeline is started before `call_start` is, and the playback is
  -- flushed and reported before an `interrupt` is.
  pub apply-Ordered :
      (s : Session fl) (i : Input fl) {o : Outcome fl} → apply fl s i ≡ some o → Ordered o.1
  apply-Ordered s i h = of_Returns fl (λ o. Ordered o.1) (Returns-Ordered s i) h

  event-Steps : (s : Session fl) (e : ServerEvent fl) → Steps s (event fl s e)
  unfolding event
  event-Steps s ServerEvent.playback_stop = ground arith
  event-Steps s _ = ground arith

  Returns-Steps :
      (s : Session fl) (i : Input fl) → IsValid fl s → Returns fl (Steps s) (apply fl s i)
  unfolding apply
  Returns-Steps s (Input.wire (Incoming.event e)) v = event-Steps s e
  Returns-Steps s Input.begin v = ground arith
  Returns-Steps s _ v = ground arith

  Counted : Session fl → List Effect → Type 0
  Counted s es =
      IsValid fl s
      × (s.call_number ≡ count is_call_start es)
      × (count is_call_stop es + one_if s.in_call ≤ count is_call_start es)

  new-Counted : Counted (new fl) []
  unfolding Counted new
  new-Counted = (new-IsValid fl, refl, omega arith)

  apply-Counted :
      (s : Session fl) (es : List Effect) (i : Input fl) (o : Outcome fl)
      → Counted s es
      → apply fl s i ≡ some o
      → Counted o.0 (es ++ o.1)
  unfolding Counted
  apply-Counted s es i o (v, n, c) e =
      let st : Steps s o = of_Returns fl (Steps s) (Returns-Steps s i v) e in
      let starts = count-append is_call_start es o.1 in
      let stops = count-append is_call_stop es o.1 in
      (
        apply-IsValid fl s i v e,
        omega (arith, st.numbered, starts),
        omega (arith, st.stops, starts, stops),
      )

  -- After any inputs to a new session, its call number is the number of `call_start`s sent, and
  -- the `call_stop`s sent, with the call that is up, are no more than those.
  pub run-calls :
      (is : List (Input fl)) {o : Outcome fl}
      → run fl (new fl) is ≡ some o
      → (o.0.call_number ≡ count is_call_start o.1)
        × (count is_call_stop o.1 + one_if o.0.in_call ≤ count is_call_start o.1)
  unfolding Counted
  run-calls is {o} h =
      let c : Counted o.0 o.1 = run_inv fl Counted apply-Counted (new fl) is new-Counted h in
      (c.1, c.2)
