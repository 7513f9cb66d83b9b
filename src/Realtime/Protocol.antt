-- ===== src/Realtime/Protocol.antt =====
-- The voice wire's events (desktop/core/src/realtime/protocol.rs). An `Option` of the wire is a
-- field that the daemon may leave out; a numeric field holds any number of its width.
use fermix_linux.Base.{ℕ, Bool, true, false, List, Option, String, str_eq, if◌then◌else◌}
use fermix_linux.Base.Floats.{Floats}
use fermix_linux.Base.Int.{ℤ}

-- `PlaybackProgress`
pub record Progress : Type 0 where
  pub playback_id : String
  pub played_ms : ℕ
  pub drained : Bool

pub data ClientEvent : Type 0 where
  client_hello : ℕ → ClientEvent
  call_start : ClientEvent
  audio_chunk : String → ClientEvent
  -- `audio_end_ms`
  interrupt : Option ℕ → ClientEvent
  mute : Bool → ClientEvent
  call_stop : ClientEvent
  -- `delegation_id`
  task_cancel : String → ClientEvent
  playback_progress : Progress → ClientEvent

pub data TurnState : Type 0 where
  idle listening speaking muted thinking reconnecting : TurnState
  other : String → TurnState

pub turn_state : String → TurnState
turn_state word =
    if str_eq word "idle"
    then TurnState.idle
    else if str_eq word "listening"
    then TurnState.listening
    else if str_eq word "speaking"
    then TurnState.speaking
    else if str_eq word "muted"
    then TurnState.muted
    else if str_eq word "thinking"
    then TurnState.thinking
    else if str_eq word "reconnecting"
    then TurnState.reconnecting
    else TurnState.other word

pub data ToolStatus : Type 0 where
  running completed error : ToolStatus
  other : String → ToolStatus

pub data Direction : Type 0 where
  client_too_old client_too_new : Direction
  other : String → Direction

pub data Speaker : Type 0 where
  user assistant : Speaker
  other : String → Speaker

-- `Speaker::from`
unfoldable pub speaker_of : String → Speaker
speaker_of word =
    if str_eq word "user"
    then Speaker.user
    else if str_eq word "assistant"
    then Speaker.assistant
    else Speaker.other word

-- the derived `==`
unfoldable pub speaker_eq : Speaker → Speaker → Bool
speaker_eq Speaker.user Speaker.user = true
speaker_eq Speaker.assistant Speaker.assistant = true
speaker_eq (Speaker.other a) (Speaker.other b) = str_eq a b
speaker_eq _ _ = false

pub data TaskStatus : Type 0 where
  pending running completed failed cancelled : TaskStatus
  other : String → TaskStatus

unfoldable pub is_terminal : TaskStatus → Bool
is_terminal TaskStatus.completed = true
is_terminal TaskStatus.failed = true
is_terminal TaskStatus.cancelled = true
is_terminal _ = false

pub record Task : Type 0 where
  pub delegation_id : String
  pub revision : ℕ
  pub status : TaskStatus
  pub summary : Option String

pub record ServerError : Type 0 where
  pub reason : String
  pub kind : Option String
  pub detail : Option String
  pub direction : Option Direction
  pub client_version : Option ℕ
  pub min_version : Option ℕ
  pub max_version : Option ℕ
  pub required_for : Option String

pub record CallReady : Type 0 where
  pub engine : String
  pub call_id : String
  pub provider_session_id : Option String
  pub expires_at : Option ℤ
  pub captions : Bool

pub record Caption : Type 0 where
  pub speaker : Speaker
  pub delta : String
  pub start_ms : ℕ
  pub end_ms : ℕ

module _ (fl : Floats) where
  open fl use {F64}

  pub record UsageFigures : Type 0 where
    pub input_audio_ms : Option ℕ
    pub input_audio_tokens : Option ℕ
    pub cost_cents : Option F64
    pub transcription_ms : Option ℕ
    pub transcription_cost_cents : Option F64

  pub record Usage : Type 0 where
    pub status : Option String
    pub reason : Option String
    pub cost_cents : Option F64
    pub estimated : Option UsageFigures
    pub reported : Option UsageFigures
    pub input_tokens : Option ℕ
    pub output_tokens : Option ℕ
    pub voice_seconds : Option F64
    pub voice_cost_cents : Option F64
    pub backend_turns : Option ℕ
    pub voice_text_items : Option ℕ
    pub backend_cost : Option String
    pub accounting : Option String

  -- An `audio` is its decoded bytes.
  pub data ServerEvent : Type 0 where
    server_hello : ℕ → ℕ → ServerEvent
    state : TurnState → ServerEvent
    audio_delta : List ℕ → Option String → ServerEvent
    transcript_delta : String → Option String → ServerEvent
    assistant_text_delta : String → ServerEvent
    assistant_text_done : String → ServerEvent
    -- `status`, `name`, `reason`
    tool_event : ToolStatus → Option String → Option String → ServerEvent
    usage : Usage → ServerEvent
    error : ServerError → ServerEvent
    playback_stop : ServerEvent
    call_ready : CallReady → ServerEvent
    caption : Caption → ServerEvent
    task : Task → ServerEvent
    unknown : String → ServerEvent

-- Why bytes from the daemon could not become an event.
pub data DecodeError : Type 0 where
  not_json : String → DecodeError
  not_an_object missing_type : DecodeError
  -- `kind`, `why`
  bad_event : String → String → DecodeError
  frame_too_large : ℕ → DecodeError
  buffer_too_large : ℕ → DecodeError
