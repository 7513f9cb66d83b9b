-- ===== src/Chat/Grants.antt =====
-- The count of what reads each phone-side file (desktop/core/src/chat_wire/grants.rs).
pub mod Paths
pub mod Lookups
pub mod Calls
pub mod Reads
pub mod Answers
pub mod Held
mod Tests
use fermix_linux.Base.{
  ℕ, suc, ◌+◌, ◌-◌, ◌==◌, ltb, Bool, true, false, not, ◌&&◌, ◌||◌, List, [], ◌∷◌, ◌++◌, map, Option,
  none, some, is_some, String, ◌+++◌, str_eq, str_mem, filter, if◌then◌else◌, ◌⊎◌, inl, inr,
}
use Prim.Native.String.{compare}
use text.Mathlib.Text.{is_lt}
use fermix_linux.Chat.Wire.Rows.{Grant}
use fermix_linux.Chat.Wire.Requests.{ClientEvent, media_fetch_event, media_release_event}
use fermix_linux.Chat.Wire.Events.{ServerEvent, ServerError, Unreadable}
use fermix_linux.Chat.Grants.Paths.{is_media_ref, verify}

abbrev pub unreadable_answer : String
unreadable_answer = "the daemon's answer could not be read"

abbrev pub refused_answer : String
refused_answer = "the daemon refused the file (request_failed)"

pub data Outcome : Type 0 where
  granted : String → Outcome
  missing : Outcome
  failed : String → Outcome

pub data Answer : Type 0 where
  now : Outcome → Answer
  later : Answer

pub record Answered : Type 0 where
  pub ref : String
  pub outcome : Outcome
  pub tickets : List ℕ
  pub events : List ClientEvent
  pub asked : Bool

pub record Uses : Type 0 where
  pub count : ℕ
  pub answer : Option Outcome
  pub waiting : List ℕ

-- `uses` is in the order of its refs, each ref once.
pub record Grants : Type 0 where
  pub media_dir : String
  pub online : Bool
  pub uses : List (String × Uses)
  pub asked : List String
  pub tickets : ℕ

abbrev pub new : String → Grants
new media_dir = record { media_dir = media_dir; online = false; uses = []; asked = []; tickets = 0 }

unfoldable pub uses_of : String → List (String × Uses) → Option Uses
uses_of ref [] = none
uses_of ref ((other, uses) ∷ map) =
    let rest = uses_of ref map in if str_eq ref other then some uses else rest

abbrev pub str_lt : String → String → Bool
str_lt s t = is_lt (compare s t)

-- `BTreeMap::insert`, and a value changed in its place
unfoldable pub put_uses : String → Uses → List (String × Uses) → List (String × Uses)
put_uses ref uses [] = (ref, uses) ∷ []
put_uses ref uses ((other, held) ∷ map) =
    let rest = put_uses ref uses map in
    if str_eq ref other
    then (ref, uses) ∷ map
    else if str_lt ref other
    then (ref, uses) ∷ (other, held) ∷ map
    else (other, held) ∷ rest

-- `BTreeMap::remove`
unfoldable pub remove_uses : String → List (String × Uses) → List (String × Uses)
remove_uses ref [] = []
remove_uses ref ((other, uses) ∷ map) =
    let rest = remove_uses ref map in if str_eq ref other then rest else (other, uses) ∷ rest

-- `uses.entry(ref).or_default()`
abbrev pub or_default : Option Uses → Uses
or_default none = record { count = 0; answer = none; waiting = [] }
or_default (some uses) = uses

-- `fetch`: asked for once on a connection until it is answered.
unfoldable pub fetch : Grants → String → Grants × List ClientEvent
fetch g ref =
    if not g.online || str_mem ref g.asked
    then (g, [])
    else (record g { asked = ref ∷ g.asked }, media_fetch_event ref ∷ [])

-- `hold` of a ref, its uses with this read counted, by what answered it.
unfoldable pub hold_uses :
    Grants → String → Uses → Option Outcome → Grants × (Answer × List ClientEvent)
unfolding fetch put_uses
hold_uses g ref uses (some known) =
    (record g { uses = put_uses ref uses g.uses }, (Answer.now known, []))
hold_uses g ref uses none =
    let waits = record g {
      uses = put_uses ref (record uses { waiting = uses.waiting ++ g.tickets ∷ [] }) g.uses;
    } in
    let asking = fetch waits ref in
    if uses.count == 1 then (asking.0, (Answer.later, asking.1)) else (waits, (Answer.later, []))

-- The ticket of a read is the count of reads with it.
abbrev pub numbered : Grants → Grants
numbered g = record g { tickets = g.tickets + 1 }

abbrev pub counted : Uses → Uses
counted uses = record uses { count = uses.count + 1 }

unfoldable pub hold : Grants → String → Grants × (Answer × List ClientEvent)
unfolding hold_uses uses_of
hold g ref =
    let uses = or_default (uses_of ref g.uses) in
    if is_media_ref ref
    then hold_uses (numbered g) ref (counted uses) uses.answer
    else (numbered g, (Answer.now Outcome.missing, []))

unfoldable pub forget_uses : Grants → ℕ → String → Option Uses → Grants
unfolding put_uses
forget_uses g ticket ref none = g
forget_uses g ticket ref (some uses) = record g {
  uses =
      put_uses ref (record uses { waiting = filter (λ n. not (n == ticket)) uses.waiting }) g.uses;
}

unfoldable pub forget : Grants → ℕ → String → Grants
unfolding uses_of forget_uses
forget g ticket ref = forget_uses g ticket ref (uses_of ref g.uses)

abbrev pub is_granted : Option Outcome → Bool
is_granted (some (Outcome.granted _)) = true
is_granted _ = false

-- `released`
abbrev pub released : Bool → String → List ClientEvent
released goes ref = if goes then media_release_event ref ∷ [] else []

unfoldable pub release_uses : Grants → String → Option Uses → Grants × List ClientEvent
unfolding put_uses remove_uses
release_uses g ref none = (g, [])
release_uses g ref (some uses) =
    let left = uses.count - 1 in
    if ltb 0 left
    then (record g { uses = put_uses ref (record uses { count = left }) g.uses }, [])
    else (record g { uses = remove_uses ref g.uses }, released (is_granted uses.answer) ref)

unfoldable pub release : Grants → String → Grants × List ClientEvent
unfolding uses_of release_uses
release g ref = release_uses g ref (uses_of ref g.uses)

-- `granted`
abbrev pub outcome_of : String ⊎ String → Outcome
outcome_of (inl why) = Outcome.failed ("broken grant: " +++ why)
outcome_of (inr path) = Outcome.granted path

abbrev pub named : Option String → Outcome → Option (String × Outcome)
named none outcome = none
named (some ref) outcome = some (ref, outcome)

-- The ref that an event answers, and how.
unfoldable pub answer_of : Grants → ServerEvent → Option (String × Outcome)
unfolding verify
answer_of g (ServerEvent.media_path grant) = some (grant.ref, outcome_of (verify grant g.media_dir))
answer_of g (ServerEvent.media_missing ref) = some (ref, Outcome.missing)
answer_of g (ServerEvent.error e) =
    if str_eq e.reason "request_failed" then named e.ref (Outcome.failed refused_answer) else none
answer_of g (ServerEvent.unreadable u) = named u.ref (Outcome.failed unreadable_answer)
answer_of g _ = none

-- `held`: the daemon holds a file for this connection once it sent the event.
unfoldable pub is_grant : ServerEvent → Bool
is_grant (ServerEvent.media_path _) = true
is_grant (ServerEvent.unreadable u) = str_eq u.kind "media_path"
is_grant _ = false

-- `answered`, past the match: by whether the event is a grant, the ref, the outcome, and the
-- ref's uses, in the grants that no longer ask for it.
unfoldable pub answered_uses :
    Grants → Bool → String → Outcome → Bool → Option Uses → Grants × Answered
unfolding put_uses
answered_uses rest held ref outcome asked none = (
  rest,
  record { ref = ref; outcome = outcome; tickets = []; events = released held ref; asked = asked },
)
answered_uses rest held ref outcome asked (some uses) = (
  record rest {
    uses = put_uses ref (record uses { answer = some outcome; waiting = [] }) rest.uses;
  },
  record {
    ref = ref;
    outcome = outcome;
    tickets = uses.waiting;
    events = released (held && not (is_granted (some outcome))) ref;
    asked = asked;
  },
)

-- The grants that no longer ask for a ref.
abbrev pub without_asked : Grants → String → Grants
without_asked g ref = record g { asked = filter (λ other. not (str_eq other ref)) g.asked }

unfoldable pub answered_ref : Grants → Bool → String → Outcome → Grants × Answered
unfolding uses_of answered_uses
answered_ref g held ref outcome =
    answered_uses (without_asked g ref) held ref outcome (str_mem ref g.asked) (uses_of ref g.uses)

unfoldable pub answered_named : Grants → Bool → Option (String × Outcome) → Grants × Option Answered
unfolding answered_ref
answered_named g held none = (g, none)
answered_named g held (some (ref, outcome)) =
    let step = answered_ref g held ref outcome in (step.0, some step.1)

unfoldable pub answered : Grants → ServerEvent → Grants × Option Answered
unfolding answer_of answered_named is_grant
answered g event = answered_named g (is_grant event) (answer_of g event)

-- Each ref asked for in turn.
unfoldable pub fetch_all : Grants → List String → Grants × List ClientEvent
unfolding fetch
fetch_all g [] = (g, [])
fetch_all g (ref ∷ refs) =
    let first = fetch g ref in let rest = fetch_all first.0 refs in (rest.0, first.1 ++ rest.1)

abbrev pub refs_of : List (String × Uses) → List String
refs_of uses = map (λ entry. entry.0) uses

unfoldable pub negotiated : Grants → Grants × List ClientEvent
unfolding fetch_all
negotiated g = fetch_all (record g { online = true }) (refs_of g.uses)

-- Every answer goes.
unfoldable pub forget_answers : List (String × Uses) → List (String × Uses)
forget_answers [] = []
forget_answers ((ref, uses) ∷ map) =
    let rest = forget_answers map in (ref, record uses { answer = none }) ∷ rest

unfoldable pub disconnected : Grants → Grants
unfolding forget_answers
disconnected g = record g { online = false; asked = []; uses = forget_answers g.uses }

unfoldable pub count : Grants → String → ℕ
unfolding uses_of
count g ref = elim (uses_of ref g.uses) [ none ↦ 0 | some uses ↦ uses.count ]
