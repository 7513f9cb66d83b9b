-- ===== src/Chat/Proposals/Words.antt =====
-- A proposal's card and its words (desktop/core/src/chat_wire/proposals.rs).
use fermix_linux.Base.{
  ℕ, Bool, true, false, not, List, [], ◌∷◌, ◌++◌, Option, none, some, String, ◌+++◌, is_empty,
  filter, if◌then◌else◌, ltb, ◌>>=◌,
}
use fermix_linux.Base.Int.{ℤ, pos, negsuc, add, neg}
use fermix_linux.Chat.Clock.{unix_seconds}
use fermix_linux.Chat.Wire.Cards.{Ask, Cue, Decision, FollowUp, Proposal, takes}
use fermix_linux.Chat.Timeline.State.{HeldProposal, Standing, asks_now}

abbrev pub title : String
title = "A task wants to act"

abbrev pub call_header : String
call_header = "Written from outside text"

abbrev pub reason_header : String
reason_header = "Why the filter passed it"

abbrev pub item_unsourced : String
item_unsourced = "The item it acted on"

abbrev pub result_header : String
result_header = "What the tool answered"

pub record OutsidePart : Type 0 where
  pub header : String
  pub facts : Option String
  pub text : String
  pub code : Bool

pub data Footer : Type 0 where
  ask expired : Footer
  answered : Bool → Footer
  status : String → Footer
  -- `sentence`, `result`
  resolved : String → Option OutsidePart → Footer

pub record Item : Type 0 where
  pub source : Option String
  pub received_at : Option String
  pub facts : List String
  pub text : String

pub data CardAsk : Type 0 where
  call : String → CardAsk
  -- `instructions`, `facts`
  follow_up : String → String → CardAsk

pub record Card : Type 0 where
  pub id : String
  pub summary : String
  pub task : String
  pub watcher : Option String
  pub expires_at : String
  pub ask : CardAsk
  pub reason : Option String
  pub item : Option Item
  pub answers : List (String × Decision)
  pub footer : Footer

-- `unwrap_or`
abbrev pub or_else {ℓ} : {A : Type ℓ} → Option A → A → A
or_else none y = y
or_else (some x) y = x

-- `join`
unfoldable pub join : String → List String → String
join between [] = ""
join between (part ∷ []) = part
join between (part ∷ next ∷ parts) = part +++ between +++ join between (next ∷ parts)

unfoldable pub follow_up_facts : FollowUp → String
unfolding join
follow_up_facts f =
    let reports = "Reports to " +++ f.reports_to in
    if is_empty f.tools then reports else reports +++ " · Tools: " +++ join ", " f.tools

unfoldable pub card_ask : Ask → CardAsk
unfolding follow_up_facts
card_ask (Ask.call mandate tool args_text) = CardAsk.call args_text
card_ask (Ask.follow_up f) = CardAsk.follow_up ("It will: " +++ f.instructions) (follow_up_facts f)

-- A card's buttons, those that it does not offer among them.
abbrev pub words_of : Ask → List (String × Decision)
words_of (Ask.call _ _ _) = ("Deny", Decision.deny) ∷ ("Confirm", Decision.confirm) ∷ []
words_of (Ask.follow_up _) =
    ("Always allow", Decision.always_allow)
    ∷ ("Skip", Decision.deny)
    ∷ ("Run", Decision.confirm)
    ∷ []

unfoldable pub answers : Ask → List (String × Decision)
unfolding filter takes
answers asked = filter (λ answer. takes asked answer.1) (words_of asked)

abbrev pub result_part : String → OutsidePart
result_part result = record { header = result_header; facts = none; text = result; code = true }

-- `result_text.map`
abbrev pub result_parts : Option String → Option OutsidePart
result_parts none = none
result_parts (some result) = some (result_part result)

abbrev pub is_run : Decision → Bool
is_run Decision.deny = false
is_run _ = true

-- `footer`, of where a card stands, whether it asks, and its own line.
unfoldable pub footer_of : Standing → Bool → String → Footer
footer_of Standing.opened asks status_sentence =
    if asks then Footer.ask else Footer.status status_sentence
footer_of (Standing.answered decision) asks status_sentence = Footer.answered (is_run decision)
footer_of Standing.expired asks status_sentence = Footer.expired
footer_of (Standing.resolved sentence result_text) asks status_sentence =
    Footer.resolved sentence (result_parts result_text)
footer_of (Standing.refused sentence) asks status_sentence = Footer.resolved sentence none

unfoldable pub footer : HeldProposal → Footer
unfolding footer_of asks_now
footer held = footer_of held.standing (asks_now held) held.proposal.status_sentence

-- A field of an item that it has, labelled.
abbrev pub labelled : String → Option String → List String
labelled label none = []
labelled label (some value) = (label +++ value) ∷ []

abbrev pub item_facts : Cue → List String
item_facts cue =
    labelled "Type: " cue.kind
    ++ (labelled "Subject: " cue.subject ++ labelled "Dated: " cue.occurred_at)

-- The item that a card draws.
abbrev pub item_of : Proposal → Option Cue → Option Item
item_of proposal none = none
item_of proposal (some cue) = some (record {
  source = proposal.source_ref;
  received_at = proposal.received_at;
  facts = item_facts cue;
  text = or_else cue.text "";
})

unfoldable pub card : HeldProposal → Card
unfolding card_ask answers footer
card held = record {
  id = held.proposal.proposal_id;
  summary = held.proposal.summary;
  task = or_else held.proposal.task.name held.proposal.task.job_id;
  watcher = held.proposal.watcher;
  expires_at = held.proposal.expires_at;
  ask = card_ask held.proposal.ask;
  reason = held.proposal.outside.reason;
  item = item_of held.proposal held.proposal.outside.cue;
  answers = answers held.proposal.ask;
  footer = footer held;
}

-- `flatten` of one part or none
abbrev pub part_of : Option OutsidePart → List OutsidePart
part_of none = []
part_of (some part) = part ∷ []

abbrev pub joined_facts : Item → Option String
unfolding join
joined_facts item = if not (is_empty item.facts) then some (join " · " item.facts) else none

-- `clock` shows a time, or cannot read it.
module _ (clock : String → Option String) where
  unfoldable pub item_header_of : Option String → Option String → String
  item_header_of (some source) (some received_at) =
      "From " +++ source +++ ", received " +++ or_else (clock received_at) received_at
  item_header_of (some source) none = item_unsourced
  item_header_of none received_at = item_unsourced

  abbrev pub item_header : Item → String
  unfolding item_header_of
  item_header item = item_header_of item.source item.received_at

  abbrev pub call_part : CardAsk → Option OutsidePart
  call_part (CardAsk.call args) =
      some (record { header = call_header; facts = none; text = args; code = true })
  call_part (CardAsk.follow_up instructions facts) = none

  abbrev pub reason_part : Option String → Option OutsidePart
  reason_part none = none
  reason_part (some reason) =
      some (record { header = reason_header; facts = none; text = reason; code = false })

  abbrev pub item_part : Option Item → Option OutsidePart
  unfolding item_header_of join
  item_part none = none
  item_part (some item) = some (record {
    header = item_header item;
    facts = joined_facts item;
    text = item.text;
    code = false;
  })

  unfoldable pub outside_parts : Card → List OutsidePart
  unfolding item_header_of join
  outside_parts card =
      part_of (call_part card.ask)
      ++ (part_of (reason_part card.reason) ++ part_of (item_part card.item))

  abbrev pub waits_until : Card → String
  waits_until card = "Waits until " +++ or_else (clock card.expires_at) card.expires_at

  abbrev pub watcher_facts : Option String → List String
  watcher_facts none = []
  watcher_facts (some name) = ("Watcher: " +++ name) ∷ []

  unfoldable pub facts : Card → String
  unfolding join
  facts card =
      join " · " (("Task: " +++ card.task) ∷ (watcher_facts card.watcher ++ waits_until card ∷ []))

  abbrev pub arrival : Card → String
  arrival card = title +++ ", " +++ waits_until card

-- `u64::try_from`, of a wait that is more than none
abbrev pub positive : ℤ → Option ℕ
positive (pos n) = if ltb 0 n then some n else none
positive (negsuc n) = none

unfoldable pub last_minute_in : Card → ℤ → Option ℕ
unfolding unix_seconds
last_minute_in card now =
    unix_seconds card.expires_at >>= λ expires. positive (add (add expires (negsuc 59)) (neg now))
