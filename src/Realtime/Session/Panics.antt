-- ===== src/Realtime/Session/Panics.antt =====
-- Where the session fails an assertion, and that the app's inputs never make it.
use fermix_linux.Base.{
  ◌≡◌, refl, Bool, true, false, not, ◌&&◌, List, [], ◌∷◌, ◌++◌, Option, some, none, arith,
  if◌then◌else◌, is_some, str_is_empty, ◌>>=◌,
}
use fermix_linux.Base.Floats.{Floats}
use fermix_linux.Realtime.Protocol.{ServerEvent}
use fermix_linux.Realtime.Client.{Incoming}
use fermix_linux.Realtime.Session.Data.{Effect, Input, is_connecting, look}
use fermix_linux.Realtime.Session.State.{Session, Outcome, new, status}
use fermix_linux.Realtime.Session.Returns.{Returns, of_Returns, run, run_from}
use fermix_linux.Realtime.Session.Invariant.{IsValid, new-IsValid, apply-IsValid, run-IsValid}
use fermix_linux.Realtime.Session.{event, apply}

module _ (fl : Floats) where
  open fl use {F32, lit, le, is_finite}

  -- What the app may hand the session, `pending` saying that a `Connect` is unanswered: its
  -- answer, a close of a connection that is there, a sentence with words, a level in range.
  abbrev pub is_allowed : Bool → Input fl → Bool
  is_allowed pending Input.connected = pending
  is_allowed pending (Input.connect_failed _) = pending
  is_allowed pending (Input.wire (Incoming.closed _)) = not pending
  is_allowed pending (Input.audio_failed sentence) = not (str_is_empty sentence)
  is_allowed pending (Input.mic_level heard) =
      is_finite heard && (le (lit 0 1) heard && le heard (lit 1 1))
  is_allowed pending _ = true

  abbrev is_answer : Input fl → Bool
  is_answer Input.connected = true
  is_answer (Input.connect_failed _) = true
  is_answer _ = false

  -- whether a `Connect` is unanswered after an input and its effects
  abbrev pub still_pending : Bool → Input fl → List Effect → Bool
  still_pending pending i (Effect.connect ∷ es) = true
  still_pending pending i (_ ∷ es) = still_pending pending i es
  still_pending pending i [] = if is_answer i then false else pending

  -- Every input is one that the app may hand the session when it comes.
  abbrev pub AreAllowed : Bool → Session fl → List (Input fl) → Type 0
  AreAllowed pending s [] = Unit
  AreAllowed pending s (i ∷ is) =
      (is_allowed pending i ≡ true)
      × Returns fl (λ o. AreAllowed (still_pending pending i o.1) o.0 is) (apply fl s i)

  -- One allowed input returns, and keeps what `pending` says.
  Answers : Bool → Session fl → Input fl → Option (Outcome fl) → Type 0
  Answers pending s i none = ⊥
  Answers pending s i (some o) = is_connecting o.0.link ≡ still_pending pending i o.1

  event-Answers :
      (pending : Bool) (s : Session fl) (e : ServerEvent fl)
      → is_connecting s.link ≡ pending
      → Answers pending s (Input.wire (Incoming.event e)) (some (event fl s e))
  unfolding event Answers
  event-Answers pending s ServerEvent.playback_stop p = ground arith
  event-Answers pending s _ p = ground arith

  apply-Answers :
      (pending : Bool) (s : Session fl) (i : Input fl)
      → IsValid fl s
      → is_connecting s.link ≡ pending
      → is_allowed pending i ≡ true
      → Answers pending s i (apply fl s i)
  unfolding apply Answers
  apply-Answers pending s (Input.wire (Incoming.event e)) v p a = event-Answers pending s e p
  apply-Answers pending s Input.begin v p a = ground arith
  apply-Answers pending s _ v p a = ground arith

  Answers-some :
      (pending : Bool) (s : Session fl) (i : Input fl) (r : Option (Outcome fl))
      → Answers pending s i r
      → (o : Outcome fl) × (r ≡ some o) × (is_connecting o.0.link ≡ still_pending pending i o.1)
  unfolding Answers
  Answers-some pending s i none a = absurd a
  Answers-some pending s i (some o) a = (o, refl, a)

  run_from_total :
      (pending : Bool) (s : Session fl) (es : List Effect) (is : List (Input fl))
      → IsValid fl s
      → is_connecting s.link ≡ pending
      → AreAllowed pending s is
      → (o : Outcome fl) × (run_from fl s es is ≡ some o)
  unfolding run_from
  run_from_total pending s es [] v p a = ((s, es), refl)
  run_from_total pending s es (i ∷ is) v p a =
      let (o, e, p') =
        Answers-some pending s i (apply fl s i) (apply-Answers pending s i v p a.0) in
      let (o', e') =
        run_from_total (still_pending pending i o.1) o.0 (es ++ o.1) is (apply-IsValid fl s i v e)
          p' (of_Returns fl (λ o. AreAllowed (still_pending pending i o.1) o.0 is) a.1 e) in
      (o', rw (e, ◌>>=◌) e')

  -- A new session never fails an assertion under inputs that the app may hand it.
  pub run_total :
      (is : List (Input fl))
      → AreAllowed false (new fl) is
      → (o : Outcome fl) × (run fl (new fl) is ≡ some o)
  unfolding run new
  run_total is a = run_from_total false (new fl) [] is (new-IsValid fl) refl a

  -- The status of a session after any inputs to a new one is always there: an error has its
  -- sentence, and every other mode its look.
  pub status-run :
      (is : List (Input fl)) {o : Outcome fl}
      → run fl (new fl) is ≡ some o
      → is_some (status fl o.0) ≡ true
  unfolding status look
  status-run is h = let v = run-IsValid fl is h in ground (arith, v)
