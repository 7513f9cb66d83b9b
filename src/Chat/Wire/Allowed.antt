-- ===== src/Chat/Wire/Allowed.antt =====
-- Which proposals can be allowed for good (desktop/core/src/chat_wire/protocol.rs).
use fermix_linux.Base.{◌≡◌, true, Option, none, some, String, str_eq, ◌⊎◌, inl, inr, arith}
use fermix_linux.Chat.Wire.Cards.{
  Decision, FollowUp, Ask, takes, follow_up_runs, Proposal, RawProposal, shown_args, ask_of,
  proposal_of, try_from,
}

-- A follow-up that asks for a run and offers to be allowed for good, and no mandate's call.
abbrev pub Offers : Option String → Option String → Option FollowUp → Type 0
Offers mandate tool none = ⊥
Offers mandate tool (some f) =
    (mandate ≡ none)
    × (tool ≡ none)
    × (str_eq f.asks follow_up_runs ≡ true)
    × (f.offers_always_allow ≡ true)

inl_not_inr : {e : String} {ask : Ask} → (inl e ≡ inr ask) → ⊥
inl_not_inr h = cc h

ask_of-Offers :
    (mandate tool args : Option String) (f : Option FollowUp) (ask : Ask)
    → ask_of mandate tool args f ≡ inr ask
    → takes ask Decision.always_allow ≡ true
    → Offers mandate tool f
unfolding ask_of takes
ask_of-Offers none none args (some f) ask e t = ground (arith, e, t)
ask_of-Offers (some m) (some tool) (some args) none ask e t = ground (arith, e, t)
ask_of-Offers none none args none ask e t = absurd (inl_not_inr e)
ask_of-Offers none (some tool) args f ask e t = absurd (inl_not_inr e)
ask_of-Offers (some m) none args f ask e t = absurd (inl_not_inr e)
ask_of-Offers (some m) (some tool) none f ask e t = absurd (inl_not_inr e)
ask_of-Offers (some m) (some tool) (some args) (some f) ask e t = absurd (inl_not_inr e)

proposal_of-ask :
    (raw : RawProposal) (o : String ⊎ Ask) (p : Proposal)
    → proposal_of raw o ≡ inr p
    → o ≡ inr p.ask
proposal_of-ask raw (inl e) p h = cc h
proposal_of-ask raw (inr ask) p h = ground (arith, h)

-- A proposal that was read and that takes "always allow" is a follow-up that asks for a run and
-- offers it, and no mandate's call of a tool.
pub try_from-Offers :
    (raw : RawProposal) (p : Proposal)
    → try_from raw ≡ inr p
    → takes p.ask Decision.always_allow ≡ true
    → Offers raw.mandate raw.tool raw.follow_up
unfolding try_from
try_from-Offers raw p e t =
    let o = ask_of raw.mandate raw.tool (shown_args raw.outside.args_text) raw.follow_up in
    ask_of-Offers raw.mandate raw.tool (shown_args raw.outside.args_text) raw.follow_up p.ask
      (proposal_of-ask raw o p e) t
