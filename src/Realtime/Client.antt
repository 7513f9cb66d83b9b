-- ===== src/Realtime/Client.antt =====
-- What the voice connection hands the session (desktop/core/src/realtime/client.rs). The client
-- itself, its threads and its socket, are not modelled.
use fermix_linux.Base.{ℕ, Bool, String}
use fermix_linux.Base.Floats.{Floats}
use fermix_linux.Realtime.Protocol.{ServerError, ServerEvent, DecodeError}

-- An I/O error is its text.
pub data ConnectError : Type 0 where
  not_found refused : ConnectError
  rejected : ServerError → ConnectError
  timeout : ConnectError
  io : String → ConnectError

pub data CloseReason : Type 0 where
  local peer_closed : CloseReason
  read_failed : String → CloseReason
  write_failed : String → CloseReason
  control_timeout stalled : CloseReason
  framing : DecodeError → CloseReason
  line_too_long : ℕ → CloseReason

module _ (fl : Floats) where
  open fl use {F32}

  pub data Incoming : Type 0 where
    event : ServerEvent fl → Incoming
    -- `bytes`, `rms`, `voiced`
    audio : ℕ → F32 → Bool → Incoming
    closed : CloseReason → Incoming
