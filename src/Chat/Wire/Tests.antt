-- ===== src/Chat/Wire/Tests.antt =====
-- A follow-up that was read, and the theorem on it.
use fermix_linux.Base.{◌≡◌, refl, true, [], none, some, inr}
use fermix_linux.Chat.Wire.Cards.{
  Decision, FollowUp, Ask, ProposalState, takes, Proposal, RawProposal, ask_of, try_from,
}
use fermix_linux.Chat.Wire.Allowed.{Offers, try_from-Offers}

abbrev follow_up : FollowUp
follow_up = record {
  asks = "run";
  offers_always_allow = true;
  name = "n";
  instructions = "i";
  tools = [];
  reports_to = "r";
}

abbrev raw : RawProposal
raw = record {
  proposal_id = "p";
  state = ProposalState.waiting;
  mandate = none;
  tool = none;
  follow_up = some follow_up;
  task = record { job_id = "j"; name = none };
  watcher = none;
  source_ref = none;
  created_at = "c";
  expires_at = "e";
  received_at = none;
  decided_at = none;
  decided_from = none;
  result_status = none;
  status_sentence = "s";
  summary = "u";
  outside = record { args_text = none; args = []; reason = none; cue = none };
}

abbrev read : Proposal
read = record {
  proposal_id = "p";
  state = ProposalState.waiting;
  ask = Ask.follow_up follow_up;
  task = raw.task;
  watcher = none;
  source_ref = none;
  created_at = "c";
  expires_at = "e";
  received_at = none;
  decided_at = none;
  decided_from = none;
  result_status = none;
  status_sentence = "s";
  summary = "u";
  outside = record { args = []; reason = none; cue = none };
}

raw-read : try_from raw ≡ inr read
unfolding try_from ask_of
raw-read = refl

read-takes : takes read.ask Decision.always_allow ≡ true
unfolding takes
read-takes = refl

try_from-Offers_example : Offers none none (some follow_up)
try_from-Offers_example = try_from-Offers raw read raw-read read-takes
