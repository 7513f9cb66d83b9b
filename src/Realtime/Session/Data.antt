-- ===== src/Realtime/Session/Data.antt =====
-- The data of the voice call, and what the reducer reads of it
-- (desktop/core/src/realtime/session.rs).
use fermix_linux.Base.{
  ℕ, Bool, true, false, List, [], ◌∷◌, ◌++◌, Option, none, some, String, ◌+++◌, str_is_empty, ltb,
  if◌then◌else◌, length,
}
use fermix_linux.Base.Floats.{Floats}
use fermix_linux.Realtime.Protocol.{
  ClientEvent, TurnState, Speaker, speaker_eq, TaskStatus, Caption,
}
use fermix_linux.Realtime.Client.{ConnectError, CloseReason, Incoming}

pub data Mode : Type 0 where
  offline connecting idle listening muted thinking speaking tool_use reconnecting error : Mode

pub data Palette : Type 0 where
  faint secondary accent warning success error : Palette

pub record Status : Type 0 where
  pub label : String
  pub icon : String
  pub palette : Palette

pub data Effect : Type 0 where
  connect : Effect
  send : ClientEvent → Effect
  start_audio stop_audio : Effect
  arm : Bool → Effect
  mute_mic : Bool → Effect
  flush_playback new_playback report_playback reset_anchor : Effect
  watch_call_start : ℕ → Effect
  disconnect : Effect

pub data Link : Type 0 where
  offline connecting ready : Link

pub record TranscriptLine : Type 0 where
  pub speaker : Speaker
  pub text : String

unfoldable pub who : TranscriptLine → String
who line = elim line.speaker [
  | Speaker.user ↦ "You"
  | Speaker.assistant ↦ "Fermix"
  | Speaker.other word ↦ word
]

abbrev pub transcript_lines : ℕ
transcript_lines = 8

-- `Vec::remove(0)`, after the length was found past the bound
abbrev pub remove_first : List TranscriptLine → List TranscriptLine
remove_first [] = []
remove_first (_ ∷ lines) = lines

unfoldable pub push_line : List TranscriptLine → TranscriptLine → List TranscriptLine
push_line transcript line =
    let pushed = transcript ++ line ∷ [] in
    if ltb transcript_lines (length pushed) then remove_first pushed else pushed

-- `last_mut`
unfoldable pub get_last? : List TranscriptLine → Option TranscriptLine
get_last? [] = none
get_last? (line ∷ []) = some line
get_last? (_ ∷ next ∷ lines) = get_last? (next ∷ lines)

-- what is written through `last_mut`
unfoldable pub set_last : List TranscriptLine → TranscriptLine → List TranscriptLine
set_last [] new = []
set_last (_ ∷ []) new = new ∷ []
set_last (line ∷ next ∷ lines) new = line ∷ set_last (next ∷ lines) new

-- `add_caption`, of the transcript
unfoldable pub caption_lines : List TranscriptLine → Caption → List TranscriptLine
unfolding get_last? set_last
caption_lines transcript caption =
    let started : TranscriptLine = record { speaker = caption.speaker; text = caption.delta } in
    let pushed = if str_is_empty caption.delta then transcript else push_line transcript started in
    elim (get_last? transcript) [
      | some line ↦
          if speaker_eq line.speaker caption.speaker
          then set_last transcript (record line { text = line.text +++ caption.delta })
          else pushed
      | none ↦ pushed
    ]

abbrev pub task_engines : List String
task_engines = "openai_live" ∷ "xai_realtime" ∷ []

abbrev pub is_listening : TurnState → Bool
is_listening TurnState.listening = true
is_listening _ = false

abbrev pub is_speaking : Mode → Bool
is_speaking Mode.speaking = true
is_speaking _ = false

abbrev pub is_thinking : Mode → Bool
is_thinking Mode.thinking = true
is_thinking _ = false

abbrev pub is_error : Mode → Bool
is_error Mode.error = true
is_error _ = false

abbrev pub is_connecting : Link → Bool
is_connecting Link.connecting = true
is_connecting _ = false

abbrev pub is_running : TaskStatus → Bool
is_running TaskStatus.running = true
is_running _ = false

abbrev pub is_local : CloseReason → Bool
is_local CloseReason.local = true
is_local _ = false

-- `CloseReason::Framing(_) | CloseReason::LineTooLong(_)`
abbrev pub is_unreadable : CloseReason → Bool
is_unreadable (CloseReason.framing _) = true
is_unreadable (CloseReason.line_too_long _) = true
is_unreadable _ = false

-- The word, icon and palette of every mode but `error`, at which `look` is unreachable.
unfoldable pub look : Mode → Option Status
look Mode.offline =
    some (record {
      label = "Not connected";
      icon = "network-offline-symbolic";
      palette = Palette.faint;
    })
look Mode.connecting = some (record {
  label = "Connecting…";
  icon = "content-loading-symbolic";
  palette = Palette.secondary;
})
look Mode.idle =
    some (record { label = "Ready"; icon = "call-start-symbolic"; palette = Palette.secondary })
look Mode.listening = some (record {
  label = "Listening";
  icon = "audio-input-microphone-symbolic";
  palette = Palette.accent;
})
look Mode.muted =
    some
      (record { label = "Muted"; icon = "microphone-disabled-symbolic"; palette = Palette.warning })
look Mode.thinking =
    some
      (record { label = "Thinking"; icon = "emoji-objects-symbolic"; palette = Palette.secondary })
look Mode.speaking =
    some (record {
      label = "Speaking";
      icon = "audio-volume-high-symbolic";
      palette = Palette.success;
    })
look Mode.tool_use = some (record {
  label = "Running a tool";
  icon = "applications-engineering-symbolic";
  palette = Palette.secondary;
})
look Mode.reconnecting = some (record {
  label = "Reconnecting to OpenAI…";
  icon = "view-refresh-symbolic";
  palette = Palette.warning;
})
look Mode.error = none

module _ (fl : Floats) where
  open fl use {F32}

  pub data Input : Type 0 where
    begin end : Input
    mute : Bool → Input
    -- `played_ms`
    stop : ℕ → Input
    cancel_task connected : Input
    connect_failed : ConnectError → Input
    wire : Incoming fl → Input
    drained : Input
    audio_failed : String → Input
    mic_level : F32 → Input
    call_deadline : ℕ → Input
