-- ===== src/Chat/Grants/Calls.antt =====
-- The calls that change the grants (desktop/core/src/chat_wire/grants.rs), and what the daemon holds
-- for the window as the events that pass say.
use fermix_linux.Base.{
  ℕ, ◌≡◌, Bool, true, false, not, ◌&&◌, ◌||◌, List, [], Option, none, some, leb, String, str_eq,
  str_mem, any,
}
use fermix_linux.Chat.Wire.Requests.{ClientEvent}
use fermix_linux.Chat.Wire.Events.{ServerEvent}
use fermix_linux.Chat.Grants.{
  Grants, Uses, Outcome, Answered, uses_of, hold, forget, is_granted, release, answer_of, answered,
  negotiated, disconnected,
}

-- The calls that change the grants.
pub data Call : Type 0 where
  read read_end : String → Call
  wait_end : ℕ → String → Call
  event : ServerEvent → Call
  handshake ending : Call

-- What an answer sends.
abbrev pub events_of : Option Answered → List ClientEvent
events_of none = []
events_of (some answered) = answered.events

unfoldable pub step : Grants → Call → Grants × List ClientEvent
step g (Call.read ref) = let asking = hold g ref in (asking.0, asking.1.1)
step g (Call.read_end ref) = release g ref
step g (Call.wait_end ticket ref) = (forget g ticket ref, [])
step g (Call.event e) = let came = answered g e in (came.0, events_of came.1)
step g Call.handshake = negotiated g
step g Call.ending = (disconnected g, [])

abbrev pub is_release : String → ClientEvent → Bool
is_release ref (ClientEvent.media_release _ other) = str_eq ref other
is_release ref _ = false

-- Whether the daemon lets the ref go on these requests.
abbrev pub lets_go : String → List ClientEvent → Bool
lets_go ref events = any (is_release ref) events

abbrev pub is_ref : String → Option String → Bool
is_ref ref none = false
is_ref ref (some other) = str_eq ref other

-- Whether the daemon holds the ref once it sent the event.
unfoldable pub grants_ref : String → ServerEvent → Bool
grants_ref ref (ServerEvent.media_path grant) = str_eq ref grant.ref
grants_ref ref (ServerEvent.unreadable u) = str_eq u.kind "media_path" && is_ref ref u.ref
grants_ref ref _ = false

-- Whether the daemon holds the ref after a call and the requests it sends.
unfoldable pub held_after : String → Bool → Call → List ClientEvent → Bool
held_after ref held (Call.event e) events = (grants_ref ref e || held) && not (lets_go ref events)
held_after ref held Call.ending events = false
held_after ref held _ events = held && not (lets_go ref events)

-- The daemon answers only what is asked, and a handshake is of a connection that is not up yet.
unfoldable pub IsCall : Grants → Call → Type 0
IsCall g (Call.event e) =
    (ref : String)
    → (outcome : Outcome) → answer_of g e ≡ some (ref, outcome)
    → str_mem ref g.asked ≡ true
IsCall g Call.handshake = g.online ≡ false
IsCall g _ = Unit {0}

-- A ref that the daemon holds is granted to reads that are counted, and is neither asked for nor
-- held without a connection.
abbrev pub keeps : Option Uses → Bool → Bool → Bool → Bool
keeps none asked online held = not held && (not asked || online)
keeps (some uses) asked online held =
    leb 1 uses.count
    && (not asked || online)
    && (not held || is_granted uses.answer && not asked && online)

abbrev pub IsHeld : String → Grants → Bool → Type 0
IsHeld ref g held = keeps (uses_of ref g.uses) (str_mem ref g.asked) g.online held ≡ true
