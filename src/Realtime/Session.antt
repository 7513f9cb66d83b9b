-- ===== src/Realtime/Session.antt =====
-- The voice call as a reducer (desktop/core/src/realtime/session.rs): one input, the new session
-- and the effects it asks for, or `none` where an assertion fails.
pub mod Data
pub mod State
pub mod Calls
pub mod Events
pub mod Returns
pub mod Invariant
pub mod Gate
pub mod Calling
pub mod Deadline
pub mod Panics
pub mod Tasks
pub mod Transcript
mod Tests
use fermix_linux.Base.{
  ℕ, ◌+◌, Bool, true, false, not, ◌&&◌, ◌||◌, List, [], ◌∷◌, ◌++◌, Option, none, some, String,
  ◌+++◌, str_eq, str_is_empty, is_blank, str_mem, ltb, ◌==◌, if◌then◌else◌,
}
use fermix_linux.Base.Floats.{Floats}
use fermix_linux.Realtime.Protocol.{
  ClientEvent, TurnState, ToolStatus, Speaker, speaker_of, TaskStatus, is_terminal, Task,
  ServerError, CallReady, Caption, Usage, ServerEvent,
}
use fermix_linux.Realtime.Client.{ConnectError, CloseReason, Incoming}
use fermix_linux.Realtime.Level.{rms, voiced, smooth, meter}
use fermix_linux.Realtime.Words.{
  not_started, disagreed, tool_failed, error_sentence, connect_sentence, lost_sentence,
}
use fermix_linux.Realtime.Session.Data.{
  Mode, Palette, Status, Effect, Link, TranscriptLine, push_line, caption_lines, Input,
  is_listening, is_speaking, is_thinking, is_error, is_connecting, is_running, is_local,
  is_unreadable, task_engines, look,
}
use fermix_linux.Realtime.Session.State.{
  Session, Outcome, new, streaming, visual_mode, can_stop, can_cancel_task, mic_level_shown,
  shown_error, status, task_line, set_muted, input_mode,
}
use fermix_linux.Realtime.Session.Calls.{
  begin_call, begin, drop_call, end, fail_with, fail_call, mute, stop, cancel_task, connected,
  connect_failed, after_close, closed,
}
use fermix_linux.Realtime.Session.Events.{
  drained, call_deadline, presented, daemon_mute, turn_state, audio, measure_mic, add_line,
  add_caption, playback_stop, tool_event, server_error, is_late, task_update,
}

module _ (fl : Floats) where
  pub event : Session fl → ServerEvent fl → Outcome fl
  unfolding turn_state audio playback_stop tool_event server_error task_update add_caption add_line
  event s (ServerEvent.state state) = turn_state fl s state
  event s (ServerEvent.audio_delta bytes playback_id) = audio fl s (rms fl bytes) (voiced bytes)
  event s ServerEvent.playback_stop = playback_stop fl s
  event s (ServerEvent.tool_event tool name reason) = tool_event fl s tool reason
  event s (ServerEvent.error refusal) = server_error fl s refusal
  event s (ServerEvent.task task) = task_update fl s task
  event s (ServerEvent.usage usage) = (record s { usage = some usage }, [])
  event s (ServerEvent.caption caption) = add_caption fl s caption
  event s (ServerEvent.transcript_delta text role) =
      add_line fl s (elim role [ some word ↦ speaker_of word | none ↦ Speaker.user ]) text
  event s (ServerEvent.assistant_text_done text) = add_line fl s Speaker.assistant text
  event s (ServerEvent.call_ready up) =
      (record s { engine = some up.engine; call_id = some up.call_id }, [])
  event s (ServerEvent.server_hello _ _) = (s, [])
  event s (ServerEvent.assistant_text_delta _) = (s, [])
  event s (ServerEvent.unknown _) = (s, [])

  pub apply : Session fl → Input fl → Option (Outcome fl)
  unfolding begin end mute stop cancel_task connected connect_failed event audio closed drained
      fail_call measure_mic call_deadline
  apply s Input.begin = some (begin fl s)
  apply s Input.end = some (end fl s)
  apply s (Input.mute on) = some (mute fl s on)
  apply s (Input.stop played_ms) = some (stop fl s played_ms)
  apply s Input.cancel_task = some (cancel_task fl s)
  apply s Input.connected = connected fl s
  apply s (Input.connect_failed refusal) = connect_failed fl s refusal
  apply s (Input.wire (Incoming.event e)) = some (event s e)
  apply s (Input.wire (Incoming.audio bytes heard voice)) = some (audio fl s heard voice)
  apply s (Input.wire (Incoming.closed reason)) = some (closed fl s reason)
  apply s Input.drained = some (drained fl s)
  apply s (Input.audio_failed sentence) = fail_call fl s sentence
  apply s (Input.mic_level heard) = measure_mic fl s heard
  apply s (Input.call_deadline call) = call_deadline fl s call
