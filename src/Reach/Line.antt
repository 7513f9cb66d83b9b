-- ===== src/Reach/Line.antt =====
-- The reach line, and whether it is followed (desktop/core/src/reach.rs, mobile.rs).
use fermix_linux.Base.{
  ◌≡◌, refl, Bool, true, false, Option, none, some, String, arith, if◌then◌else◌,
}

pub data RemoteState : Type 0 where
  off dormant helper_missing starting ready failed unrecognized : RemoteState

pub record Remote : Type 0 where
  pub state : RemoteState
  pub connected : Bool
  pub failure : Option String

pub data Kind : Type 0 where
  remark progress failure : Kind

pub record Line : Type 0 where
  pub text : String
  pub kind : Kind

abbrev pub new : String → Kind → Line
new text kind = record { text = text; kind = kind }

abbrev pub not_available : String
not_available = "Not available in this build yet."

abbrev pub starts_later : String
starts_later = "Starts when you pair your first phone."

abbrev pub is_starting : String
is_starting = "Starting…"

abbrev pub is_connected : String
is_connected = "Connected to Fermix’s relays."

abbrev pub not_connected : String
not_connected = "Not connected to Fermix’s relays right now."

-- `failure.map`
abbrev pub failed_line : Option String → Option Line
failed_line none = none
failed_line (some text) = some (new text Kind.failure)

-- `line`, by the rail's state.
unfoldable pub line_of : Remote → RemoteState → Option Line
line_of remote RemoteState.helper_missing = some (new not_available Kind.remark)
line_of remote RemoteState.dormant = some (new starts_later Kind.remark)
line_of remote RemoteState.starting = some (new is_starting Kind.progress)
line_of remote RemoteState.ready =
    some (new (if remote.connected then is_connected else not_connected) Kind.remark)
line_of remote RemoteState.failed = failed_line remote.failure
line_of remote RemoteState.off = none
line_of remote RemoteState.unrecognized = none

abbrev pub line : Option Remote → Option Line
unfolding line_of
line none = none
line (some remote) = line_of remote remote.state

unfoldable pub state_moves : RemoteState → Bool
state_moves RemoteState.starting = true
state_moves RemoteState.ready = true
state_moves RemoteState.failed = true
state_moves RemoteState.unrecognized = true
state_moves RemoteState.off = false
state_moves RemoteState.dormant = false
state_moves RemoteState.helper_missing = false

abbrev pub moves : Option Remote → Bool
unfolding state_moves
moves none = false
moves (some remote) = state_moves remote.state

-- Whether a line stands for a state that moves by itself.
abbrev pub is_unsettled : Kind → Bool
is_unsettled Kind.remark = false
is_unsettled Kind.progress = true
is_unsettled Kind.failure = true

state_moves-line_of :
    (remote : Remote) (state : RemoteState) (shown : Line)
    → line_of remote state ≡ some shown
    → is_unsettled shown.kind ≡ true
    → state_moves state ≡ true
unfolding line_of state_moves
state_moves-line_of remote RemoteState.helper_missing shown h k = ground (arith, h, k)
state_moves-line_of remote RemoteState.dormant shown h k = ground (arith, h, k)
state_moves-line_of remote RemoteState.starting shown h k = refl
state_moves-line_of remote RemoteState.ready shown h k = refl
state_moves-line_of remote RemoteState.failed shown h k = refl
state_moves-line_of remote RemoteState.off shown h k = ground (arith, h)
state_moves-line_of remote RemoteState.unrecognized shown h k = refl

-- A line that says a start or a failure is followed.
pub moves-line :
    (remote : Remote) (shown : Line)
    → line (some remote) ≡ some shown
    → is_unsettled shown.kind ≡ true
    → moves (some remote) ≡ true
unfolding line moves
moves-line remote shown h k = state_moves-line_of remote remote.state shown h k
