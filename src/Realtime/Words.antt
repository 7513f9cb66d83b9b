-- ===== src/Realtime/Words.antt =====
-- The sentences of the voice call (desktop/core/src/realtime/session.rs).
use fermix_linux.Base.{
  Bool, false, ◌||◌, List, [], ◌∷◌, Option, none, some, String, ◌+++◌, str_eq, starts_with, str_mem,
  strip_prefix, if◌then◌else◌,
}
use fermix_linux.Realtime.Protocol.{Direction, ServerError}
use fermix_linux.Realtime.Client.{ConnectError, CloseReason}

abbrev not_opened : String
not_opened =
    "Voice is on, but Fermix has not opened its voice connection. Restarting Fermix usually fixes this."

abbrev pub not_started : String
not_started = "Fermix did not start the call in time."

abbrev pub disagreed : String
disagreed = "Voice stopped: this app and Fermix could not understand each other."

abbrev pub tool_failed : String
tool_failed = "The tool did not finish."

abbrev not_answered : String
not_answered = "Fermix did not answer the voice connection."

abbrev connection_failed : String
connection_failed = "The voice connection to Fermix failed."

abbrev pub connection_closed : String
connection_closed = "The voice connection to Fermix closed."

abbrev pub not_reading : String
not_reading = "Fermix stopped taking voice audio."

violations : List String
violations =
    "handshake_required" ∷ "unexpected_client_hello" ∷ "invalid_json" ∷ "invalid_event"
    ∷ "missing_type" ∷ "missing_audio" ∷ "invalid_audio_base64" ∷ "invalid_audio_end_ms"
    ∷ "missing_delegation_id" ∷ "missing_protocol_version" ∷ "invalid_protocol_version"
    ∷ "line_too_large" ∷ "not_connected" ∷ "unsupported_by_engine" ∷ "unknown_playback"
    ∷ "playback_regressed" ∷ "playback_beyond_sent" ∷ []

-- the closure `is` of `error_sentence`
unfoldable pub names : ServerError → String → Bool
names error word =
    str_eq error.reason word || elim error.kind [ none ↦ false | some kind ↦ str_eq kind word ]

update_sentence : ServerError → String
update_sentence error = elim error.direction [
  | some direction ↦ (elim direction [
    | Direction.client_too_old ↦ "Update this app to talk to this version of Fermix."
    | Direction.client_too_new ↦ "Update Fermix to talk to this app."
    | Direction.other word ↦
        "This app and Fermix need matching versions to talk. Update the older one."
  ])
  | none ↦ "This app and Fermix need matching versions to talk. Update the older one."
]

unfoldable pub limit_sentence : (String → Bool) → Option String
limit_sentence is =
    if is "max_clients_reached"
    then some "Four other voice clients are already connected to Fermix."
    else if is "not_configured"
    then some
        "Add the voice provider's API key in Voice settings, or turn voice off. A subscription sign-in does not cover voice; it needs an API key."
    else if is "provider_disconnected"
    then some "The connection to the voice provider dropped."
    else if is "call_in_progress"
    then some "Another voice call is already up."
    else if is "max_session_duration"
    then some "This call reached the time limit set in Voice settings."
    else if is "cost_limit"
    then some "This call reached the spending limit set in Voice settings."
    else none

is_violation : String → Bool
unfolding str_mem violations
is_violation reason =
    str_mem reason violations
    || (starts_with reason "{:unknown_event" || starts_with reason "{:chunk_too_large")

-- the tests after `detail`
reason_sentence : ServerError → String
unfolding is_violation strip_prefix names
reason_sentence error = elim (strip_prefix error.reason "provider_send_failed: ") [
  | some text ↦ "The voice provider refused the call: " +++ text +++ "."
  | none ↦
      if names error "provider_refused"
      then "The voice provider refused the call."
      else if is_violation error.reason
      then disagreed
      else if starts_with error.reason "{:session_down"
      then "Voice stopped unexpectedly."
      else "Fermix stopped voice (" +++ error.reason +++ ")."
]

unfoldable pub error_sentence : ServerError → String
unfolding names update_sentence limit_sentence reason_sentence
error_sentence error =
    if names error "unsupported_protocol_version" || names error "update_required"
    then update_sentence error
    else elim (limit_sentence (names error)) [
      | some sentence ↦ sentence
      | none ↦ elim error.detail [ some detail ↦ detail | none ↦ reason_sentence error ]
    ]

unfoldable pub connect_sentence : ConnectError → String
unfolding error_sentence
connect_sentence ConnectError.not_found = not_opened
connect_sentence ConnectError.refused = not_opened
connect_sentence (ConnectError.rejected refusal) = error_sentence refusal
connect_sentence ConnectError.timeout = not_answered
connect_sentence (ConnectError.io text) = connection_failed

unfoldable pub lost_sentence : CloseReason → Option String
lost_sentence CloseReason.local = none
lost_sentence (CloseReason.framing error) = none
lost_sentence (CloseReason.line_too_long size) = none
lost_sentence CloseReason.stalled = some not_reading
lost_sentence CloseReason.control_timeout = some not_reading
lost_sentence CloseReason.peer_closed = some connection_closed
lost_sentence (CloseReason.read_failed text) = some connection_closed
lost_sentence (CloseReason.write_failed text) = some connection_closed
