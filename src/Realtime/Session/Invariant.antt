-- ===== src/Realtime/Session/Invariant.antt =====
-- What holds of a voice session between two inputs.
use fermix_linux.Base.{
  ℕ, ◌≤◌, ◌≡◌, refl, Bool, true, false, not, List, [], ◌∷◌, Option, some, String, arith, length,
  length-append, is_some,
}
use fermix_linux.Base.Floats.{Floats}
use fermix_linux.Realtime.Words.{not_started}
use fermix_linux.Realtime.Session.Data.{
  Mode, Link, Input, TranscriptLine, transcript_lines, push_line, set_last, caption_lines,
}
use fermix_linux.Realtime.Protocol.{
  Caption, TurnState, ToolStatus, ServerError, Task, ServerEvent, Speaker,
}
use fermix_linux.Realtime.Client.{CloseReason, ConnectError, Incoming}
use fermix_linux.Realtime.Level.{rms, voiced}
use fermix_linux.Realtime.Session.State.{Session, Outcome, new}
use fermix_linux.Realtime.Session.Calls.{
  begin, end, fail_with, fail_call, mute, stop, cancel_task, connected, connect_failed, closed,
}
use fermix_linux.Realtime.Session.Events.{
  drained, call_deadline, turn_state, audio, measure_mic, add_line, add_caption, playback_stop,
  tool_event, server_error, task_update,
}
use fermix_linux.Realtime.Session.Returns.{Returns, of_Returns, run, run_inv}
use fermix_linux.Realtime.Session.{event, apply}

length-push_line :
    (lines : List TranscriptLine) (line : TranscriptLine)
    → length lines ≤ transcript_lines
    → length (push_line lines line) ≤ transcript_lines
unfolding push_line
length-push_line lines line h = ground (arith, length-append lines (line ∷ []))

length-set_last :
    (lines : List TranscriptLine) (line : TranscriptLine)
    → length (set_last lines line) ≡ length lines
unfolding set_last
length-set_last [] line = refl
length-set_last (_ ∷ []) line = refl
length-set_last (_ ∷ next ∷ lines) line = omega (arith, length-set_last (next ∷ lines) line)

length-caption_lines :
    (lines : List TranscriptLine) (caption : Caption)
    → length lines ≤ transcript_lines
    → length (caption_lines lines caption) ≤ transcript_lines
unfolding caption_lines
length-caption_lines lines caption h = grind (arith, length-push_line, length-set_last)

module _ (fl : Floats) where
  pub record IsValid (s : Session fl) : Type 0 where
    pub error_says : s.mode ≡ Mode.error → is_some s.error ≡ true
    pub call_up : s.in_call ≡ true → s.link ≡ Link.ready
    pub call_begun : s.in_call ≡ true → s.begin_when_connected ≡ false
    pub armed_call : s.armed ≡ true → s.in_call ≡ true
    pub muted_call : s.muted ≡ true → s.in_call ≡ true
    pub tail_call : s.tail ≡ true → s.in_call ≡ true
    pub awaiting_call : s.awaiting_listen ≡ true → s.in_call ≡ true
    pub armed_heard : s.in_call ≡ true → s.armed ≡ not s.awaiting_listen
    pub transcript_fits : length s.transcript ≤ transcript_lines

  abbrev Sound : Option (Outcome fl) → Type 0
  Sound = Returns fl (λ o. IsValid o.0)

  pub new-IsValid : IsValid (new fl)
  unfolding new
  new-IsValid = ground arith

  begin-IsValid : (s : Session fl) → IsValid s → IsValid (begin fl s).0
  unfolding begin
  begin-IsValid s v = ground arith

  end-IsValid : (s : Session fl) → IsValid s → IsValid (end fl s).0
  unfolding end
  end-IsValid s v = ground arith

  mute-IsValid : (s : Session fl) (on : Bool) → IsValid s → IsValid (mute fl s on).0
  unfolding mute
  mute-IsValid s on v = ground arith

  stop-IsValid : (s : Session fl) (played_ms : ℕ) → IsValid s → IsValid (stop fl s played_ms).0
  unfolding stop
  stop-IsValid s played_ms v = ground arith

  cancel_task-IsValid : (s : Session fl) → IsValid s → IsValid (cancel_task fl s).0
  unfolding cancel_task
  cancel_task-IsValid s v = ground arith

  drained-IsValid : (s : Session fl) → IsValid s → IsValid (drained fl s).0
  unfolding drained
  drained-IsValid s v = ground arith

  closed-IsValid :
      (s : Session fl) (reason : CloseReason) → IsValid s → IsValid (closed fl s reason).0
  unfolding closed
  closed-IsValid s reason v = ground arith

  turn_state-IsValid :
      (s : Session fl) (state : TurnState) → IsValid s → IsValid (turn_state fl s state).0
  unfolding turn_state
  turn_state-IsValid s state v = ground arith

  audio-IsValid :
      (s : Session fl) (heard : fl.F32) (voice : Bool)
      → IsValid s
      → IsValid (audio fl s heard voice).0
  unfolding audio
  audio-IsValid s heard voice v = ground arith

  playback_stop-IsValid : (s : Session fl) → IsValid s → IsValid (playback_stop fl s).0
  unfolding playback_stop
  playback_stop-IsValid s v = ground arith

  tool_event-IsValid :
      (s : Session fl) (tool : ToolStatus) (reason : Option String)
      → IsValid s
      → IsValid (tool_event fl s tool reason).0
  unfolding tool_event
  tool_event-IsValid s tool reason v = ground arith

  server_error-IsValid :
      (s : Session fl) (refusal : ServerError) → IsValid s → IsValid (server_error fl s refusal).0
  unfolding server_error
  server_error-IsValid s refusal v = ground arith

  task_update-IsValid :
      (s : Session fl) (task : Task) → IsValid s → IsValid (task_update fl s task).0
  unfolding task_update
  task_update-IsValid s task v = ground arith

  fail_with-IsValid :
      (s : Session fl) (sentence : String) → IsValid s → IsValid (fail_with fl s sentence).0
  unfolding fail_with
  fail_with-IsValid s sentence v = ground arith

  connected-IsValid : (s : Session fl) → IsValid s → Sound (connected fl s)
  unfolding connected
  connected-IsValid s v = ground arith

  connect_failed-IsValid :
      (s : Session fl) (e : ConnectError) → IsValid s → Sound (connect_failed fl s e)
  unfolding connect_failed
  connect_failed-IsValid s e v = ground arith

  fail_call-IsValid :
      (s : Session fl) (sentence : String) → IsValid s → Sound (fail_call fl s sentence)
  unfolding fail_call
  fail_call-IsValid s sentence v = ground (arith, fail_with-IsValid s sentence v)

  measure_mic-IsValid :
      (s : Session fl) (heard : fl.F32) → IsValid s → Sound (measure_mic fl s heard)
  unfolding measure_mic
  measure_mic-IsValid s heard v = ground arith

  call_deadline-IsValid : (s : Session fl) (call : ℕ) → IsValid s → Sound (call_deadline fl s call)
  unfolding call_deadline
  call_deadline-IsValid s call v = ground (arith, fail_call-IsValid s not_started v)

  add_line-IsValid :
      (s : Session fl) (speaker : Speaker) (text : String)
      → IsValid s
      → IsValid (add_line fl s speaker text).0
  unfolding add_line
  add_line-IsValid s speaker text v = grind (arith, length-push_line)

  add_caption-IsValid :
      (s : Session fl) (caption : Caption) → IsValid s → IsValid (add_caption fl s caption).0
  unfolding add_caption
  add_caption-IsValid s caption v = ground (arith, length-caption_lines s.transcript caption)

  event-IsValid : (s : Session fl) (e : ServerEvent fl) → IsValid s → IsValid (event fl s e).0
  unfolding event
  event-IsValid s (ServerEvent.state state) v = turn_state-IsValid s state v
  event-IsValid s (ServerEvent.audio_delta bytes _) v =
      audio-IsValid s (rms fl bytes) (voiced bytes) v
  event-IsValid s ServerEvent.playback_stop v = playback_stop-IsValid s v
  event-IsValid s (ServerEvent.tool_event tool _ reason) v = tool_event-IsValid s tool reason v
  event-IsValid s (ServerEvent.error refusal) v = server_error-IsValid s refusal v
  event-IsValid s (ServerEvent.task task) v = task_update-IsValid s task v
  event-IsValid s (ServerEvent.caption caption) v = add_caption-IsValid s caption v
  event-IsValid s (ServerEvent.transcript_delta text role) v = add_line-IsValid s _ text v
  event-IsValid s (ServerEvent.assistant_text_done text) v = add_line-IsValid s _ text v
  event-IsValid s (ServerEvent.usage _) v = ground arith
  event-IsValid s (ServerEvent.call_ready _) v = ground arith
  event-IsValid s (ServerEvent.server_hello _ _) v = v
  event-IsValid s (ServerEvent.assistant_text_delta _) v = v
  event-IsValid s (ServerEvent.unknown _) v = v

  pub apply-Sound : (s : Session fl) (i : Input fl) → IsValid s → Sound (apply fl s i)
  unfolding apply
  apply-Sound s Input.begin v = begin-IsValid s v
  apply-Sound s Input.end v = end-IsValid s v
  apply-Sound s (Input.mute on) v = mute-IsValid s on v
  apply-Sound s (Input.stop played_ms) v = stop-IsValid s played_ms v
  apply-Sound s Input.cancel_task v = cancel_task-IsValid s v
  apply-Sound s Input.connected v = connected-IsValid s v
  apply-Sound s (Input.connect_failed refusal) v = connect_failed-IsValid s refusal v
  apply-Sound s (Input.wire (Incoming.event e)) v = event-IsValid s e v
  apply-Sound s (Input.wire (Incoming.audio _ heard voice)) v = audio-IsValid s heard voice v
  apply-Sound s (Input.wire (Incoming.closed reason)) v = closed-IsValid s reason v
  apply-Sound s Input.drained v = drained-IsValid s v
  apply-Sound s (Input.audio_failed sentence) v = fail_call-IsValid s sentence v
  apply-Sound s (Input.mic_level heard) v = measure_mic-IsValid s heard v
  apply-Sound s (Input.call_deadline call) v = call_deadline-IsValid s call v

  -- Every input keeps the invariant.
  pub apply-IsValid :
      (s : Session fl) (i : Input fl) {o : Outcome fl}
      → IsValid s
      → apply fl s i ≡ some o
      → IsValid o.0
  apply-IsValid s i v h = of_Returns fl (λ o. IsValid o.0) (apply-Sound s i v) h

  -- Whatever inputs a new session is given, it satisfies the invariant.
  pub run-IsValid :
      (is : List (Input fl)) {o : Outcome fl} → run fl (new fl) is ≡ some o → IsValid o.0
  run-IsValid is h =
      run_inv fl (λ s _. IsValid s) (λ s es i o v e. apply-IsValid s i v e) (new fl) is new-IsValid
        h
