-- ===== src/Realtime/Session/Calls.antt =====
-- The methods that begin, end, change and lose a call (desktop/core/src/realtime/session.rs). A
-- method that changes `self` returns the new session beside the effects it asks for; one that
-- asserts returns `none` where the assertion fails.
use fermix_linux.Base.{
  ℕ, ◌+◌, Bool, true, false, not, ◌&&◌, [], ◌∷◌, ◌++◌, Option, none, some, String, str_is_empty,
  if◌then◌else◌,
}
use fermix_linux.Base.Floats.{Floats}
use fermix_linux.Realtime.Protocol.{ClientEvent}
use fermix_linux.Realtime.Client.{ConnectError, CloseReason}
use fermix_linux.Realtime.Words.{disagreed, connect_sentence, lost_sentence}
use fermix_linux.Realtime.Session.Data.{
  Mode, Effect, Link, is_error, is_connecting, is_local, is_unreadable,
}
use fermix_linux.Realtime.Session.State.{Session, Outcome, can_cancel_task, set_muted, input_mode}

module _ (fl : Floats) where
  open fl use {lit}

  unfoldable pub begin_call : Session fl → Outcome fl
  unfolding set_muted
  begin_call s =
      let number = s.call_number + 1 in
      (
        record (set_muted fl s false) {
          begin_when_connected = false;
          in_call = true;
          armed = false;
          tail = false;
          level = lit 0 1;
          awaiting_listen = true;
          mode = Mode.connecting;
          error = none;
          engine = none;
          call_id = none;
          transcript = [];
          task = none;
          usage = none;
          call_number = number;
        },
        Effect.arm false
            ∷ Effect.mute_mic false
            ∷ Effect.new_playback
            ∷ Effect.start_audio
            ∷ Effect.send ClientEvent.call_start
            ∷ Effect.watch_call_start number
            ∷ [],
      )

  unfoldable pub begin : Session fl → Outcome fl
  unfolding begin_call
  begin s =
      let asked = record s { begin_when_connected = true } in
      if s.in_call then (s, []) else elim s.link [
        | Link.ready ↦ begin_call asked
        | Link.connecting ↦ (asked, [])
        | Link.offline ↦ (
          record asked { link = Link.connecting; mode = Mode.connecting; error = none },
          Effect.connect ∷ [],
        )
      ]

  unfoldable pub drop_call : Session fl → Outcome fl
  unfolding set_muted
  drop_call s = (
    record (set_muted fl s false) {
      in_call = false;
      armed = false;
      tail = false;
      level = lit 0 1;
      awaiting_listen = false;
    },
    (if s.in_call then Effect.arm false ∷ Effect.stop_audio ∷ Effect.flush_playback ∷ [] else []),
  )

  unfoldable pub end : Session fl → Outcome fl
  unfolding drop_call
  end s =
      let asked = record s { begin_when_connected = false } in
      let (dropped, effects) = drop_call asked in
      if s.in_call
      then (
        record dropped { mode = Mode.idle; error = none },
        effects ++ Effect.send ClientEvent.call_stop ∷ [],
      )
      else (asked, [])

  -- the body of `fail_call` below its assertion
  unfoldable pub fail_with : Session fl → String → Outcome fl
  unfolding drop_call
  fail_with s sentence =
      let (dropped, effects) = drop_call s in
      if s.in_call
      then (
        record dropped { mode = Mode.error; error = some sentence },
        effects ++ Effect.send ClientEvent.call_stop ∷ [],
      )
      else (s, [])

  unfoldable pub fail_call : Session fl → String → Option (Outcome fl)
  unfolding fail_with
  fail_call s sentence = if str_is_empty sentence then none else some (fail_with s sentence)

  unfoldable pub mute : Session fl → Bool → Outcome fl
  unfolding set_muted input_mode
  mute s on =
      let set = set_muted fl s on in
      if s.in_call
      then (
        record set { mode = if s.awaiting_listen then s.mode else input_mode fl set },
        Effect.mute_mic on ∷ Effect.send (ClientEvent.mute on) ∷ [],
      )
      else (s, [])

  unfoldable pub stop : Session fl → ℕ → Outcome fl
  unfolding input_mode
  stop s played_ms =
      if s.in_call
      then (
        record s { tail = false; level = lit 0 1; mode = input_mode fl s },
        Effect.flush_playback
            ∷ Effect.report_playback
            ∷ Effect.send (ClientEvent.interrupt (some played_ms))
            ∷ [],
      )
      else (s, [])

  unfoldable pub cancel_task : Session fl → Outcome fl
  unfolding can_cancel_task
  cancel_task s = elim s.task [
    | some task ↦
        if can_cancel_task fl s
        then (s, Effect.send (ClientEvent.task_cancel task.delegation_id) ∷ [])
        else (s, [])
    | none ↦ (s, [])
  ]

  unfoldable pub connected : Session fl → Option (Outcome fl)
  unfolding begin_call
  connected s =
      let up = record s { link = Link.ready } in
      if is_connecting s.link
      then some
          (if s.begin_when_connected then begin_call up else (record up { mode = Mode.idle }, []))
      else none

  unfoldable pub connect_failed : Session fl → ConnectError → Option (Outcome fl)
  connect_failed s refusal =
      if is_connecting s.link
      then some (
        record s {
          link = Link.offline;
          begin_when_connected = false;
          error = some (connect_sentence refusal);
          mode = Mode.error;
        },
        [],
      )
      else none

  -- the mode and the sentence of a session that `closed` tore down
  unfoldable pub after_close : Session fl → CloseReason → Session fl → Session fl
  after_close s reason dropped =
      if is_unreadable reason
      then record dropped { mode = Mode.error; error = some disagreed }
      else elim (if s.in_call then lost_sentence reason else none) [
        | some sentence ↦ record dropped { mode = Mode.error; error = some sentence }
        | none ↦
            if not s.in_call && is_error s.mode
            then dropped
            else record dropped { mode = Mode.offline; error = none }
      ]

  unfoldable pub closed : Session fl → CloseReason → Outcome fl
  unfolding drop_call after_close
  closed s reason =
      let (dropped, effects) = drop_call s in
      let torn = record dropped { link = Link.offline; begin_when_connected = false } in
      if is_local reason
      then (s, [])
      else (after_close s reason torn, effects ++ Effect.disconnect ∷ [])
