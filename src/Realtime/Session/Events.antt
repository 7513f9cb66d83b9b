-- ===== src/Realtime/Session/Events.antt =====
-- The methods that follow the daemon, the pipeline and the microphone
-- (desktop/core/src/realtime/session.rs).
use fermix_linux.Base.{
  ℕ, Bool, true, false, not, ◌&&◌, ◌||◌, [], ◌∷◌, ◌++◌, Option, none, some, String, ◌+++◌, str_eq,
  is_blank, ltb, ◌==◌, if◌then◌else◌,
}
use fermix_linux.Base.Floats.{Floats}
use fermix_linux.Realtime.Protocol.{
  TurnState, ToolStatus, Speaker, is_terminal, Task, ServerError, Caption,
}
use fermix_linux.Realtime.Level.{smooth, meter}
use fermix_linux.Realtime.Words.{not_started, tool_failed, error_sentence}
use fermix_linux.Realtime.Session.Data.{
  Mode, Effect, TranscriptLine, push_line, caption_lines, is_listening, is_speaking,
}
use fermix_linux.Realtime.Session.State.{Session, Outcome, streaming, set_muted, input_mode}
use fermix_linux.Realtime.Session.Calls.{drop_call, fail_call}

module _ (fl : Floats) where
  open fl use {F32, lit, le, is_finite}

  unfoldable pub drained : Session fl → Outcome fl
  unfolding input_mode
  drained s =
      let still = record s { tail = false; level = lit 0 1 } in
      let working : Bool = elim s.task [
        | some task ↦ not (is_terminal task.status)
        | none ↦ false
      ] in
      if not s.in_call || not (is_speaking s.mode) then (still, []) else (
        record still { mode = if working then Mode.tool_use else input_mode fl s },
        Effect.reset_anchor ∷ [],
      )

  unfoldable pub call_deadline : Session fl → ℕ → Option (Outcome fl)
  unfolding fail_call
  call_deadline s call =
      if not (call == s.call_number) || not s.in_call || not s.awaiting_listen
      then some (s, [])
      else fail_call fl s not_started

  unfoldable pub presented : Session fl → TurnState → Mode
  unfolding input_mode
  presented s TurnState.listening = input_mode fl s
  presented s TurnState.speaking = Mode.speaking
  presented s TurnState.muted = Mode.muted
  presented s TurnState.thinking = Mode.thinking
  presented s TurnState.reconnecting = Mode.reconnecting
  presented s TurnState.idle = Mode.idle
  presented s (TurnState.other word) = Mode.idle

  -- what the daemon says of mute, and the gate's half that follows it
  unfoldable pub daemon_mute : Session fl → TurnState → Outcome fl
  unfolding set_muted
  daemon_mute s TurnState.muted = (set_muted fl s true, Effect.mute_mic true ∷ [])
  daemon_mute s TurnState.idle = (set_muted fl s false, Effect.mute_mic false ∷ [])
  daemon_mute s _ = (s, [])

  unfoldable pub turn_state : Session fl → TurnState → Outcome fl
  unfolding daemon_mute presented
  turn_state s state =
      let (heard, muting) = daemon_mute s state in
      let mode = presented heard state in
      let first = is_listening state && not s.armed in
      let anchor = is_speaking s.mode && not (is_speaking mode) in
      if s.in_call
      then (
        record heard {
          mode = mode;
          error = none;
          armed = if first then true else s.armed;
          awaiting_listen = if is_listening state then false else s.awaiting_listen;
        },
        muting
            ++ ((if first then Effect.arm true ∷ [] else [])
                ++ (if anchor then Effect.reset_anchor ∷ [] else [])),
      )
      else (s, [])

  unfoldable pub audio : Session fl → F32 → Bool → Outcome fl
  audio s heard voice =
      let louder = record s { level = smooth fl s.level heard } in
      if s.in_call
      then ((if voice then record louder { mode = Mode.speaking; tail = true } else louder), [])
      else (s, [])

  unfoldable pub measure_mic : Session fl → F32 → Option (Outcome fl)
  unfolding streaming
  measure_mic s heard =
      if is_finite heard && (le (lit 0 1) heard && le heard (lit 1 1))
      then some ((if streaming fl s then record s { mic_level = meter fl heard } else s), [])
      else none

  unfoldable pub add_line : Session fl → Speaker → String → Outcome fl
  add_line s speaker text =
      let line : TranscriptLine = record { speaker = speaker; text = text } in
      if is_blank text then (s, []) else (record s { transcript = push_line s.transcript line }, [])

  unfoldable pub add_caption : Session fl → Caption → Outcome fl
  add_caption s caption = (record s { transcript = caption_lines s.transcript caption }, [])

  unfoldable pub playback_stop : Session fl → Outcome fl
  unfolding input_mode
  playback_stop s =
      let still = record s { tail = false; level = lit 0 1 } in
      if s.in_call
      then (
        record still { mode = input_mode fl s },
        Effect.flush_playback ∷ Effect.report_playback ∷ [],
      )
      else (still, Effect.flush_playback ∷ [])

  unfoldable pub tool_event : Session fl → ToolStatus → Option String → Outcome fl
  unfolding input_mode
  tool_event s tool reason =
      let failed : String = elim reason [
        | some reason ↦ "The tool did not finish (" +++ reason +++ ")."
        | none ↦ tool_failed
      ] in
      if s.in_call
      then elim tool [
        | ToolStatus.completed ↦ (record s { mode = input_mode fl s }, [])
        | ToolStatus.running ↦ (record s { mode = Mode.tool_use }, [])
        | ToolStatus.other word ↦ (record s { mode = Mode.tool_use }, [])
        | ToolStatus.error ↦ (record s { mode = Mode.error; error = some failed }, [])
      ]
      else (s, [])

  unfoldable pub server_error : Session fl → ServerError → Outcome fl
  unfolding drop_call
  server_error s refusal =
      let (dropped, effects) = drop_call fl s in
      (record dropped { mode = Mode.error; error = some (error_sentence refusal) }, effects)

  -- a frame from an earlier revision of the same task
  unfoldable pub is_late : Option Task → Task → Bool
  is_late current task = elim current [
    | some known ↦ str_eq known.delegation_id task.delegation_id && ltb task.revision known.revision
    | none ↦ false
  ]

  unfoldable pub task_update : Session fl → Task → Outcome fl
  unfolding input_mode is_late
  task_update s task =
      let finished = is_terminal task.status in
      let kept = record s { task = some task } in
      let moved = record kept { mode = if finished then input_mode fl s else Mode.tool_use } in
      if is_late s.task task then (s, []) else ((if s.in_call then moved else kept), [])
