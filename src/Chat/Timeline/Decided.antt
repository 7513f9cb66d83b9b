-- ===== src/Chat/Timeline/Decided.antt =====
-- The owner's decisions on a proposal's card (desktop/core/src/chat_wire/timeline.rs).
use fermix_linux.Base.{
  ℕ, ◌≤◌, ◌≡◌, ◌≢◌, refl, Bool, true, false, List, [], ◌∷◌, arith, Bool-cases, inl, inr, length,
  any, filter, String,
}
use fermix_linux.Chat.Wire.Cards.{Decision}
use fermix_linux.Chat.Wire.Requests.{ClientEvent}
use fermix_linux.Chat.Timeline.State.{Chat, HeldProposal, Standing, asks_now}
use fermix_linux.Chat.Timeline.Cards.{is_card}
use fermix_linux.Chat.Timeline.Outbox.{
  is_too_long, enqueue, is_asked, answered_card, proposal_out, answer_proposal, stand,
}

module _ (named asked : HeldProposal → Bool)
    (asked_named : (held : HeldProposal) → asked held ≡ true → named held ≡ true) where
  none_asked :
      (cards : List HeldProposal) → length (filter named cards) ≡ 0 → any asked cards ≡ false
  unfolding filter
  none_asked [] e = refl
  none_asked (held ∷ cards) e = ground (arith, e, none_asked cards, asked_named held)

  some_asked :
      (cards : List HeldProposal) → any asked cards ≡ true → 1 ≤ length (filter named cards)
  unfolding filter
  some_asked [] e = cc
  some_asked (held ∷ cards) e = ground (arith, e, some_asked cards, asked_named held)

-- The first card that a test finds is the only one that another finds, and no more once it stands
-- otherwise.
stand-any :
    (named asked again : HeldProposal → Bool) (standing : Standing) (cards : List HeldProposal)
    → ((held : HeldProposal) → asked held ≡ true → named held ≡ true)
    → ((held : HeldProposal) → again held ≡ true → named held ≡ true)
    → ((held : HeldProposal) → again (record held { standing = standing }) ≡ false)
    → length (filter named cards) ≤ 1
    → any asked cards ≡ true
    → any again (stand asked standing cards) ≡ false
unfolding stand filter
stand-any named asked again standing [] f g h single e = cc
stand-any named asked again standing (held ∷ cards) f g h single e = ground (
  arith,
  single,
  e,
  f held,
  g held,
  h held,
  stand-any named asked again standing cards f g h,
  some_asked named asked f cards,
  none_asked named again g cards,
)

is_asked-named :
    (card : String) (word : Decision) (held : HeldProposal)
    → is_asked card word held ≡ true
    → is_card card held ≡ true
is_asked-named card word held e = ground (arith, e)

answered-is_asked :
    (card : String) (word again : Decision) (held : HeldProposal)
    → is_asked card again (record held { standing = Standing.answered word }) ≡ false
unfolding asks_now
answered-is_asked card word again held = ground arith

stand-asked :
    (card : String) (word again : Decision) (cards : List HeldProposal)
    → length (filter (is_card card) cards) ≤ 1
    → any (is_asked card word) cards ≡ true
    → any (is_asked card again) (stand (is_asked card word) (Standing.answered word) cards) ≡ false
stand-asked card word again cards single e =
    stand-any (is_card card) (is_asked card word) (is_asked card again) (Standing.answered word)
      cards (is_asked-named card word) (is_asked-named card again)
      (answered-is_asked card word again) single e

answered-asked :
    (encoded : ClientEvent → ℕ) (c : Chat) (card : String) (word again : Decision) (id : String)
    → length (filter (is_card card) c.proposals) ≤ 1
    → (answer_proposal encoded c card word id).0.pending ≢ c.pending
    → any (is_asked card again) (answer_proposal encoded c card word id).0.proposals ≡ false
unfolding answer_proposal answered_card enqueue
answered-asked encoded c card word again id single new =
    elim (Bool-cases (any (is_asked card word) c.proposals)) [
      | inr closed ↦ absurd (new (rw (closed) refl))
      | inl asked ↦ elim (Bool-cases (is_too_long encoded (proposal_out id card word).event)) [
        | inl long ↦ absurd (new (rw (asked, long) refl))
        | inr short ↦ rw (asked, short) (stand-asked card word again c.proposals single asked)
      ]
    ]

-- Where no two cards have one id: once a decision on a proposal is in the outbox, another on it,
-- the same or not, changes nothing and sends nothing.
pub decide-decide :
    (encoded : ClientEvent → ℕ) (c : Chat) (card : String) (word again : Decision)
    (id next : String)
    → length (filter (is_card card) c.proposals) ≤ 1
    → (answer_proposal encoded c card word id).0.pending ≢ c.pending
    → let d = (answer_proposal encoded c card word id).0 in
      answer_proposal encoded d card again next ≡ (d, [])
unfolding answer_proposal
decide-decide encoded c card word again id next single new =
    let d = (answer_proposal encoded c card word id).0 in
    rw (answered-asked encoded c card word again id single new) refl
