-- ===== src/Realtime/Session/Gate.antt =====
-- The microphone's gate, which the app moves by the effects `Arm` and `MuteMic`.
use fermix_linux.Base.{◌≡◌, refl, Bool, true, false, not, ◌&&◌, List, [], ◌∷◌, ◌++◌, some, arith}
use fermix_linux.Base.Floats.{Floats}
use fermix_linux.Realtime.Protocol.{ServerEvent}
use fermix_linux.Realtime.Client.{Incoming}
use fermix_linux.Realtime.Session.Data.{Effect, Input}
use fermix_linux.Realtime.Session.State.{Session, Outcome, new, streaming}
use fermix_linux.Realtime.Session.Returns.{Returns, of_Returns, run, run_inv}
use fermix_linux.Realtime.Session.Invariant.{IsValid, new-IsValid, apply-IsValid}
use fermix_linux.Realtime.Session.{event, apply}

pub record Gate : Type 0 where
  pub armed : Bool
  pub muted : Bool

abbrev pub is_open : Gate → Bool
is_open g = g.armed && not g.muted

abbrev perform : Gate → Effect → Gate
perform g (Effect.arm on) = record g { armed = on }
perform g (Effect.mute_mic on) = record g { muted = on }
perform g _ = g

abbrev pub gate_after : Gate → List Effect → Gate
gate_after g [] = g
gate_after g (e ∷ es) = gate_after (perform g e) es

gate_after-append :
    (g : Gate) (es fs : List Effect) → gate_after g (es ++ fs) ≡ gate_after (gate_after g es) fs
gate_after-append g [] fs = refl
gate_after-append g (e ∷ es) fs = gate_after-append (perform g e) es fs

-- as the pipeline is built: shut
abbrev pub shut : Gate
shut = record { armed = false; muted = false }

module _ (fl : Floats) where
  -- The gate as the session says it is. Between calls only `armed` matters.
  record Agrees (s : Session fl) (g : Gate) : Type 0 where
    same_armed : g.armed ≡ s.armed
    same_muted : s.in_call ≡ true → g.muted ≡ s.muted

  event-Agrees :
      (s : Session fl) (g : Gate) (e : ServerEvent fl)
      → IsValid fl s
      → Agrees s g
      → Agrees (event fl s e).0 (gate_after g (event fl s e).1)
  unfolding event
  event-Agrees s g ServerEvent.playback_stop v a = ground arith
  event-Agrees s g _ v a = ground arith

  apply-Agrees :
      (s : Session fl) (g : Gate) (i : Input fl)
      → IsValid fl s
      → Agrees s g
      → Returns fl (λ o. Agrees o.0 (gate_after g o.1)) (apply fl s i)
  unfolding apply
  apply-Agrees s g (Input.wire (Incoming.event e)) v a = event-Agrees s g e v a
  apply-Agrees s g Input.begin v a = ground arith
  apply-Agrees s g _ v a = ground arith

  open_of_Agrees :
      (s : Session fl) (g : Gate) → IsValid fl s → Agrees s g → is_open g ≡ streaming fl s
  unfolding streaming
  open_of_Agrees s g v a = ground arith

  Kept : Session fl → List Effect → Type 0
  Kept s es = IsValid fl s × Agrees s (gate_after shut es)

  new-Kept : Kept (new fl) []
  unfolding Kept new
  new-Kept = (new-IsValid fl, ground arith)

  apply-Kept :
      (s : Session fl) (es : List Effect) (i : Input fl) (o : Outcome fl)
      → Kept s es
      → apply fl s i ≡ some o
      → Kept o.0 (es ++ o.1)
  unfolding Kept
  apply-Kept s es i o (v, a) e = (
    apply-IsValid fl s i v e,
    rw (gate_after-append shut es o.1) (
        of_Returns fl (λ o. Agrees o.0 (gate_after (gate_after shut es) o.1))
          (apply-Agrees s (gate_after shut es) i v a) e),
  )

  -- After any inputs to a new session, the gate that its effects moved is open exactly when the
  -- session says that the microphone streams.
  pub run-gate :
      (is : List (Input fl)) {o : Outcome fl}
      → run fl (new fl) is ≡ some o
      → is_open (gate_after shut o.1) ≡ streaming fl o.0
  unfolding Kept
  run-gate is {o} h =
      let k : Kept o.0 o.1 = run_inv fl Kept apply-Kept (new fl) is new-Kept h in
      open_of_Agrees o.0 (gate_after shut o.1) k.0 k.1
