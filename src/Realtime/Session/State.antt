-- ===== src/Realtime/Session/State.antt =====
-- The state of the voice call, what is read of it, and the small changes that its methods share
-- (desktop/core/src/realtime/session.rs).
use fermix_linux.Base.{
  ℕ, Bool, false, not, ◌&&◌, ◌||◌, List, [], Option, none, some, String, str_mem, if◌then◌else◌,
}
use fermix_linux.Base.Floats.{Floats}
use fermix_linux.Realtime.Protocol.{TaskStatus, Task, Usage}
use fermix_linux.Realtime.Session.Data.{
  Mode, Palette, Status, Effect, Link, TranscriptLine, is_speaking, is_thinking, is_error,
  is_running, task_engines, look,
}

module _ (fl : Floats) where
  open fl use {F32, lit}

  pub record Session : Type 0 where
    pub link : Link
    pub mode : Mode
    pub in_call : Bool
    pub muted : Bool
    pub armed : Bool
    pub tail : Bool
    pub level : F32
    pub mic_level : F32
    pub error : Option String
    pub engine : Option String
    pub call_id : Option String
    pub transcript : List TranscriptLine
    pub task : Option Task
    pub usage : Option (Usage fl)
    pub call_number : ℕ
    pub awaiting_listen : Bool
    pub begin_when_connected : Bool

  abbrev pub Outcome : Type 0
  Outcome = Session × List Effect

  -- `Session::default()`
  unfoldable pub new : Session
  new = record {
    link = Link.offline;
    mode = Mode.offline;
    in_call = false;
    muted = false;
    armed = false;
    tail = false;
    level = lit 0 1;
    mic_level = lit 0 1;
    error = none;
    engine = none;
    call_id = none;
    transcript = [];
    task = none;
    usage = none;
    call_number = 0;
    awaiting_listen = false;
    begin_when_connected = false;
  }

  unfoldable pub streaming : Session → Bool
  streaming s = s.in_call && s.armed && not s.muted

  unfoldable pub visual_mode : Session → Mode
  visual_mode s = if s.in_call && s.tail then Mode.speaking else s.mode

  unfoldable pub can_stop : Session → Bool
  unfolding visual_mode
  can_stop s = s.in_call && (is_thinking s.mode || is_speaking (visual_mode s))

  unfoldable pub can_cancel_task : Session → Bool
  unfolding str_mem
  can_cancel_task s =
      let running : Bool = elim s.task [ some task ↦ is_running task.status | none ↦ false ] in
      let task_engine : Bool = elim s.engine [ some e ↦ str_mem e task_engines | none ↦ false ] in
      s.in_call && running && task_engine

  -- the method `mic_level`
  unfoldable pub mic_level_shown : Session → Option F32
  unfolding streaming
  mic_level_shown s = if streaming s then some s.mic_level else none

  -- the method `error`
  unfoldable pub shown_error : Session → Option String
  shown_error s = if is_error s.mode then s.error else none

  -- `none` where `expect` panics or `look` is unreachable
  unfoldable pub status : Session → Option Status
  unfolding visual_mode look
  status s =
      if is_error (visual_mode s)
      then elim s.error [
        | some sentence ↦
            some (record {
              label = sentence;
              icon = "dialog-warning-symbolic";
              palette = Palette.error;
            })
        | none ↦ none
      ]
      else look (visual_mode s)

  unfoldable pub task_line : Session → Option String
  task_line s = elim s.task [
    | none ↦ none
    | some task ↦ some (elim task.status [
      | TaskStatus.pending ↦ "Queued"
      | TaskStatus.running ↦ "Running"
      | TaskStatus.completed ↦ "Finished"
      | TaskStatus.failed ↦ "Did not finish"
      | TaskStatus.cancelled ↦ "Cancelled"
      | TaskStatus.other word ↦ word
    ])
  ]

  unfoldable pub set_muted : Session → Bool → Session
  set_muted s on = record s { muted = on; mic_level = lit 0 1 }

  unfoldable pub input_mode : Session → Mode
  input_mode s = if s.muted then Mode.muted else Mode.listening
