-- ===== src/Realtime/Session/Deadline.antt =====
-- The deadline of a call's first `listening`, and the silence before it.
use fermix_linux.Base.{
  ℕ, ◌≤◌, ◌<◌, ◌≡◌, Bool, true, false, ◌&&◌, List, [], ◌∷◌, some, arith, All, Bool-cases, inl, inr,
  ◌==◌,
}
use fermix_linux.Base.Floats.{Floats}
use fermix_linux.Realtime.Protocol.{ClientEvent, ServerEvent, TurnState}
use fermix_linux.Realtime.Client.{Incoming}
use fermix_linux.Realtime.Session.Data.{Effect, Input}
use fermix_linux.Realtime.Session.State.{Session, Outcome, streaming}
use fermix_linux.Realtime.Session.Returns.{Returns, of_Returns, run, run_inv_of}
use fermix_linux.Realtime.Session.Invariant.{IsValid, apply-IsValid}
use fermix_linux.Realtime.Session.{event, apply}
use fermix_linux.Realtime.Words.{not_started}
use fermix_linux.Realtime.Session.Calls.{fail_with}

module _ (fl : Floats) where
  -- the input that lets a call's microphone stream
  abbrev pub is_listening_input : Input fl → Bool
  is_listening_input (Input.wire (Incoming.event (ServerEvent.state TurnState.listening))) = true
  is_listening_input _ = false

  -- Call `n` is up only while it waits for the first `listening`, and later calls have later
  -- numbers.
  record Waits (n : ℕ) (s : Session fl) : Type 0 where
    later : n ≤ s.call_number
    waiting : s.call_number ≡ n → s.in_call ≡ true → s.awaiting_listen ≡ true

  event-Waits :
      (n : ℕ) (s : Session fl) (e : ServerEvent fl)
      → is_listening_input (Input.wire (Incoming.event e)) ≡ false
      → Waits n s
      → Waits n (event fl s e).0
  unfolding event
  event-Waits n s ServerEvent.playback_stop q w = ground arith
  event-Waits n s _ q w = ground arith

  Returns-Waits :
      (n : ℕ) (s : Session fl) (i : Input fl)
      → is_listening_input i ≡ false
      → Waits n s
      → Returns fl (λ o. Waits n o.0) (apply fl s i)
  unfolding apply
  Returns-Waits n s (Input.wire (Incoming.event e)) q w = event-Waits n s e q w
  Returns-Waits n s Input.begin q w = ground arith
  Returns-Waits n s _ q w = ground arith

  Waiting : ℕ → Session fl → List Effect → Type 0
  Waiting n s es = IsValid fl s × Waits n s

  run-Waiting :
      (s : Session fl) (is : List (Input fl)) {o : Outcome fl}
      → IsValid fl s
      → s.awaiting_listen ≡ true
      → All (λ i. is_listening_input i ≡ false) is
      → run fl s is ≡ some o
      → IsValid fl o.0 × Waits s.call_number o.0
  unfolding Waiting
  run-Waiting s is v w q h =
      run_inv_of fl (λ i. is_listening_input i ≡ false) (Waiting s.call_number)
        (λ t es i o q k e. (
          apply-IsValid fl t i k.0 e,
          of_Returns fl (λ o. Waits s.call_number o.0) (Returns-Waits s.call_number t i q k.1) e,
        ))
        s is q (v, ground arith) h

  -- A call that waits for its first `listening` does not stream the microphone, whatever inputs
  -- but a `listening` come while it is up.
  pub silent_until_listening :
      (s : Session fl) (is : List (Input fl)) {o : Outcome fl}
      → IsValid fl s
      → s.awaiting_listen ≡ true
      → All (λ i. is_listening_input i ≡ false) is
      → run fl s is ≡ some o
      → o.0.call_number ≡ s.call_number
      → streaming fl o.0 ≡ false
  unfolding streaming
  silent_until_listening s is v w q h n =
      let k = run-Waiting s is v w q h in ground (arith, k.0, k.1)

  deadline_lem :
      (s : Session fl) (n : ℕ)
      → IsValid fl s
      → Waits n s
      → (o : Outcome fl) × (apply fl s (Input.call_deadline n) ≡ some o)
        × (o.0.call_number ≡ n → o.0.in_call ≡ false)
        × (s.call_number ≡ n
            → s.in_call ≡ true
            → (o.0.error ≡ some not_started)
              × (o.1
                  ≡ Effect.arm false
                    ∷ Effect.stop_audio
                    ∷ Effect.flush_playback
                    ∷ Effect.send ClientEvent.call_stop
                    ∷ []))
  unfolding apply
  deadline_lem s n v w = elim (Bool-cases (s.call_number == n && s.in_call)) [
    | inl up ↦ (fail_with fl s not_started, ground (arith, w), ground (arith, w), ground (arith, w))
    | inr over ↦ ((s, []), ground (arith, w), ground (arith, w), ground (arith, w))
  ]

  -- The deadline of a call that waits for its first `listening`, after any inputs but a
  -- `listening`, does not fail an assertion and leaves that call over; and where the call was
  -- still up, it ends with an error, and `call_stop` is the last effect.
  pub call_deadline_ends :
      (s : Session fl) (is : List (Input fl)) {o : Outcome fl}
      → IsValid fl s
      → s.awaiting_listen ≡ true
      → All (λ i. is_listening_input i ≡ false) is
      → run fl s is ≡ some o
      → (o' : Outcome fl) × (apply fl o.0 (Input.call_deadline s.call_number) ≡ some o')
        × (o'.0.call_number ≡ s.call_number → o'.0.in_call ≡ false)
        × (o.0.call_number ≡ s.call_number
            → o.0.in_call ≡ true
            → (o'.0.error ≡ some not_started)
              × (o'.1
                  ≡ Effect.arm false
                    ∷ Effect.stop_audio
                    ∷ Effect.flush_playback
                    ∷ Effect.send ClientEvent.call_stop
                    ∷ []))
  call_deadline_ends s is {o} v w q h =
      let k = run-Waiting s is v w q h in deadline_lem o.0 s.call_number k.0 k.1

  -- A deadline left over from an earlier call changes nothing.
  pub call_deadline_stale :
      (s : Session fl) (n : ℕ)
      → n < s.call_number
      → apply fl s (Input.call_deadline n) ≡ some (s, [])
  unfolding apply
  call_deadline_stale s n h = ground arith
