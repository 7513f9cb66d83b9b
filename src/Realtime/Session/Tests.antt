-- ===== src/Realtime/Session/Tests.antt =====
-- A call from its first press to its end, and each theorem of the session at it.
use fermix_linux.Base.{
  ℕ, ◌+◌, ◌≤◌, ◌≡◌, refl, true, false, List, [], ◌∷◌, Option, none, some, String, leb, is_some,
  is_blank,
}
use fermix_linux.Base.Floats.{Floats}
use fermix_linux.Realtime.Protocol.{ClientEvent, ServerEvent, TurnState, Speaker, TaskStatus, Task}
use fermix_linux.Realtime.Client.{Incoming}
use fermix_linux.Realtime.Words.{not_started}
use fermix_linux.Realtime.Session.Data.{Effect, Input, TranscriptLine}
use fermix_linux.Realtime.Session.State.{Session, Outcome, new, streaming, status}
use fermix_linux.Realtime.Session.Returns.{run}
use fermix_linux.Realtime.Session.Invariant.{IsValid, run-IsValid}
use fermix_linux.Realtime.Session.Gate.{shut, gate_after, is_open, run-gate}
use fermix_linux.Realtime.Session.Calling.{
  Ordered, count, one_if, is_call_start, is_call_stop, apply-Ordered, run-calls,
}
use fermix_linux.Realtime.Session.Deadline.{silent_until_listening, call_deadline_ends}
use fermix_linux.Realtime.Session.Panics.{run_total, status-run}
use fermix_linux.Realtime.Session.Tasks.{NotEarlier, apply-NotEarlier}
use fermix_linux.Realtime.Session.{apply}

-- Whole numbers in place of the floating point ones.
abbrev whole : Floats
whole = record {
  F32 = ℕ;
  F64 = ℕ;
  lit = λ n d. n;
  neg = λ a. a;
  add = λ a b. a + b;
  sub = λ a b. a;
  mul = λ a b. b;
  div = λ a b. a;
  log10 = λ a. a;
  le = leb;
  is_finite = λ a. true;
  lesser = λ a b. a;
  clamp = λ low high a. a;
  sum_start = 0;
  f64_of = λ n. n;
  neg64 = λ a. a;
  add64 = λ a b. a + b;
  mul64 = λ a b. a;
  div64 = λ a b. a;
  sqrt64 = λ a. a;
  to_f32 = λ a. a;
}

abbrev dial : List (Input whole)
dial = Input.begin ∷ Input.connected ∷ []

abbrev says_listening : Input whole
says_listening = Input.wire (Incoming.event (ServerEvent.state TurnState.listening))

abbrev talk : List (Input whole)
talk =
    Input.begin
    ∷ Input.connected
    ∷ says_listening
    ∷ Input.wire (Incoming.event (ServerEvent.transcript_delta "hello" none))
    ∷ Input.mic_level 1
    ∷ Input.stop 40
    ∷ []

abbrev outcome : Option (Outcome whole) → Outcome whole
outcome none = (new whole, [])
outcome (some o) = o

abbrev dialled : Outcome whole
dialled = outcome (run whole (new whole) dial)

abbrev talked : Outcome whole
talked = outcome (run whole (new whole) talk)

dialled_effects :
    dialled.1
    ≡ Effect.connect
      ∷ Effect.arm false
      ∷ Effect.mute_mic false
      ∷ Effect.new_playback
      ∷ Effect.start_audio
      ∷ Effect.send ClientEvent.call_start
      ∷ Effect.watch_call_start 1
      ∷ []
unfolding run apply new is_blank
dialled_effects = refl

talked_streams : streaming whole talked.0 ≡ true
unfolding run apply new streaming is_blank
talked_streams = refl

run-IsValid_example : IsValid whole talked.0
unfolding run apply new is_blank
run-IsValid_example = run-IsValid whole talk refl

run-gate_example : is_open (gate_after shut talked.1) ≡ streaming whole talked.0
unfolding run apply new is_blank
run-gate_example = run-gate whole talk refl

apply-Ordered_example : Ordered (outcome (apply whole talked.0 Input.end)).1
unfolding run apply new is_blank
apply-Ordered_example = apply-Ordered whole talked.0 Input.end refl

run-calls_example :
    (talked.0.call_number ≡ count is_call_start talked.1)
    × (count is_call_stop talked.1 + one_if talked.0.in_call ≤ count is_call_start talked.1)
unfolding run apply new is_blank
run-calls_example = run-calls whole talk refl

dialled-IsValid : IsValid whole dialled.0
unfolding run apply new is_blank
dialled-IsValid = run-IsValid whole dial refl

abbrev quiet : List (Input whole)
quiet = Input.mute true ∷ Input.mic_level 1 ∷ []

abbrev still_quiet : Outcome whole
still_quiet = outcome (run whole dialled.0 quiet)

silent_until_listening_example : streaming whole still_quiet.0 ≡ false
unfolding run apply new is_blank
silent_until_listening_example =
    silent_until_listening whole dialled.0 quiet dialled-IsValid refl (refl, (refl, tt)) refl refl

call_deadline_ends_example :
    (o : Outcome whole) × (apply whole still_quiet.0 (Input.call_deadline dialled.0.call_number)
      ≡ some o)
    × (o.0.call_number ≡ dialled.0.call_number → o.0.in_call ≡ false)
    × (still_quiet.0.call_number ≡ dialled.0.call_number
        → still_quiet.0.in_call ≡ true
        → (o.0.error ≡ some not_started)
          × (o.1
              ≡ Effect.arm false
                ∷ Effect.stop_audio
                ∷ Effect.flush_playback
                ∷ Effect.send ClientEvent.call_stop
                ∷ []))
unfolding run apply new is_blank
call_deadline_ends_example =
    call_deadline_ends whole dialled.0 quiet dialled-IsValid refl (refl, (refl, tt)) refl

run_total_example : (o : Outcome whole) × (run whole (new whole) talk ≡ some o)
unfolding run apply new is_blank
run_total_example = run_total whole talk (refl, (refl, (refl, (refl, (refl, (refl, tt))))))

status-run_example : is_some (status whole talked.0) ≡ true
unfolding run apply new is_blank
status-run_example = status-run whole talk refl

abbrev job : ℕ → Task
job revision = record {
  delegation_id = "d1";
  revision = revision;
  status = TaskStatus.running;
  summary = none;
}

abbrev working : Session whole
working = record (new whole) { task = some (job 3) }

abbrev late_frame : Input whole
late_frame = Input.wire (Incoming.event (ServerEvent.task (job 2)))

apply-NotEarlier_example :
    NotEarlier whole working.task (outcome (apply whole working late_frame)).0.task
unfolding apply new
apply-NotEarlier_example = apply-NotEarlier whole working late_frame refl

late_frame_dropped : apply whole working late_frame ≡ some (working, [])
unfolding apply new
late_frame_dropped = refl

abbrev said : String → TranscriptLine
said words = record { speaker = Speaker.user; text = words }

abbrev nine : List TranscriptLine
nine =
    said "1"
    ∷ said "2"
    ∷ said "3"
    ∷ said "4"
    ∷ said "5"
    ∷ said "6"
    ∷ said "7"
    ∷ said "8"
    ∷ said "9"
    ∷ []
