-- ===== src/Chat/Tests.antt =====
-- The theorems on the chat connection and its cards at concrete inputs.
use Prim.{tt}
use fermix_linux.Base.{◌≡◌, refl, false, List, [], ◌∷◌, none, arith}
use fermix_linux.Chat.Wire.Events.{ServerEvent, Hello, Attachments}
use fermix_linux.Chat.Handshake.{handshake, window}
use fermix_linux.Chat.Phases.{Lost, Phase, Session}
use fermix_linux.Chat.Connection.{default, delay, start, connected, hello, answered, lost, running}
use fermix_linux.Chat.Connection.Backoff.{Report, after, waits, IsLong, IsOwing, history-waits}

abbrev hello_5_7 : Hello
hello_5_7 = record {
  min_version = 5;
  max_version = 7;
  primary_epoch = none;
  role = none;
  commands = record { offered = []; skipped = 0 };
  attachments = Attachments.absent;
}

-- Three failures, the last of a connection that was up.
abbrev reports : List Report
reports =
    Report.started
    ∷ Report.ended Lost.no_socket
    ∷ Report.started
    ∷ Report.ended (Lost.broken "refused")
    ∷ Report.started
    ∷ Report.opened
    ∷ Report.answer (ServerEvent.server_hello hello_5_7)
    ∷ Report.ended Lost.history
    ∷ []

-- The first attempt waits one second, the second two, and the handshake resets the backoff.
waits_of_reports : waits default reports ≡ 1 ∷ 2 ∷ 1 ∷ []
unfolding waits after start connected hello answered lost handshake window running delay
waits_of_reports = refl

-- A connection that waits for its history after two failures in a row.
abbrev reading : Session
reading = record { phase = Phase.connected; failures = 2; last_lost = none; history_owed = false }

-- It gives up on its history and comes up again, and is lost twice more.
abbrev again : List Report
again =
    Report.started
    ∷ Report.opened
    ∷ Report.answer (ServerEvent.server_hello hello_5_7)
    ∷ Report.ended (Lost.broken "closed")
    ∷ Report.started
    ∷ Report.ended Lost.no_socket
    ∷ []

history-waits_example : IsLong 3 (waits (lost reading Lost.history).0 again)
unfolding IsOwing handshake window running
history-waits_example =
    history-waits 3 reading again refl (ground arith) (ground arith)
      (tt, (tt, (refl, (tt, (tt, (tt, tt))))))

known_history_waits : waits (lost reading Lost.history).0 again ≡ 8 ∷ 16 ∷ []
unfolding waits after start connected hello answered lost handshake window running delay
known_history_waits = refl
