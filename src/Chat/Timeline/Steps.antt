-- ===== src/Chat/Timeline/Steps.antt =====
-- What each event of the daemon keeps of the chat.
use fermix_linux.Base.{
  ℕ, ◌≡◌, refl, sym, subst, Bool, true, false, not, List, [], ◌∷◌, Option, none, some, arith,
  filter, String, str_eq, Bool-cases, Option-cases, inl, inr, if◌then◌else◌,
}
use fermix_linux.Base.Ascending.{all_le, all_le-extend}
use fermix_linux.Chat.Wire.Events.{ServerEvent, ServerError}
use fermix_linux.Chat.Timeline.State.{Chat, Outgoing, Standing}
use fermix_linux.Chat.Timeline.Outbox.{settle, stand}
use fermix_linux.Chat.Timeline.Cards.{
  refused, refuses, refuse, answered_in, settled_of, is_unresolved, daemon_reported, or_else,
}
use fermix_linux.Chat.Timeline.Receive.{
  seqs_out, unread, page_unread, history_unreadable, quiet, where_named, UnreadKind, unread_kind,
}
use fermix_linux.Chat.Timeline.Invariant.{
  no_pulls, IsChat, reads_out, pulls, IsGood, WillBeGood, send_waiting-WillBeGood,
}

-- A step that sends nothing and leaves the reads that are out.
pub quiet-WillBeGood : (n : ℕ) (c : Chat) → IsChat c → n ≡ reads_out c → WillBeGood n (quiet c)
unfolding pulls
quiet-WillBeGood n c k e = (k, ground (arith, e))

filter-no_pulls :
    (test : Outgoing → Bool) (pending : List Outgoing)
    → no_pulls pending ≡ true
    → no_pulls (filter test pending) ≡ true
unfolding filter
filter-no_pulls test [] h = refl
filter-no_pulls test (out ∷ pending) h = ground (arith, h, filter-no_pulls test pending)

pub settle-IsChat : (c : Chat) (id : String) → IsChat c → IsChat (settle c id)
unfolding settle
settle-IsChat c id k = (
  k.0,
  k.1,
  k.2,
  k.3,
  k.4,
  k.5,
  filter-no_pulls (λ out. not (str_eq out.client_msg_id id)) c.pending k.6,
)

settled_of-IsChat : (c : Chat) (id : Option String) → IsChat c → IsChat (settled_of c id)
settled_of-IsChat c none k = k
settled_of-IsChat c (some id) k = settle-IsChat c id k

settled_of-pull : (c : Chat) (id : Option String) → (settled_of c id).pull ≡ c.pull
unfolding settle
settled_of-pull c none = refl
settled_of-pull c (some id) = refl

refuse-none :
    (c : Chat) (id : Option String) (reported sentence : String)
    → answered_in c id ≡ none
    → refuse c id reported sentence ≡ record (settled_of c id) { last_error = some reported }
unfolding refuse
refuse-none c id reported sentence e = rw (refuse, e) refl

refuse-some :
    (c : Chat) (id : Option String) (reported sentence card : String)
    → answered_in c id ≡ some card
    → refuse c id reported sentence ≡ record (settled_of c id) {
      proposals = stand (is_unresolved card) (Standing.refused sentence) c.proposals;
    }
unfolding refuse
refuse-some c id reported sentence card e = rw (refuse, e) refl

pub refuse-WillBeGood :
    (c : Chat) (id : Option String) (reported sentence : String)
    → IsChat c
    → WillBeGood (reads_out c) (quiet (refuse c id reported sentence))
unfolding pulls
refuse-WillBeGood c id reported sentence k =
    let good : IsGood (reads_out c) (settled_of c id, []) =
      (settled_of-IsChat c id k, ground (arith, settled_of-pull c id)) in
    elim (Option-cases (answered_in c id)) [
      | inl e ↦
          subst (λ d. IsGood (reads_out c) (d, [])) (sym (refuse-none c id reported sentence e))
            good
      | inr (card, e) ↦
          subst (λ d. IsGood (reads_out c) (d, []))
            (sym (refuse-some c id reported sentence card e)) good
    ]

pub refused-WillBeGood :
    (c : Chat) (e : ServerError) → IsChat c → WillBeGood (reads_out c) (quiet (refused c e))
unfolding refused pulls
refused-WillBeGood c e k = elim (Bool-cases (refuses e)) [
  | inl yes_ ↦ rw (yes_) (
      refuse-WillBeGood c e.client_msg_id (daemon_reported e.reason)
        (or_else e.message (daemon_reported e.reason)) k)
  | inr no_ ↦ rw (no_) (quiet-WillBeGood (reads_out c) c k refl)
]

unread-IsChat : (c : Chat) → IsChat c → IsChat (unread c)
unfolding unread all_le
unread-IsChat c k =
    ground (arith, k, all_le-extend c.cursor c.read_before_disconnect (seqs_out c.pull))

pub page_unread-WillBeGood : (c : Chat) → IsChat c → WillBeGood 0 (page_unread c)
unfolding page_unread unread
page_unread-WillBeGood c k = elim (Bool-cases (history_unreadable (unread c))) [
  | inl many ↦ rw (many) (quiet-WillBeGood 0 (unread c) (unread-IsChat c k) refl)
  | inr few ↦ rw (few) (send_waiting-WillBeGood (unread c) (unread-IsChat c k))
]

pub named-WillBeGood :
    (n : ℕ) (named : Option String) (c : Chat) (change : String → Chat)
    → WillBeGood n (quiet c)
    → ((id : String) → WillBeGood n (quiet (change id)))
    → WillBeGood n (quiet (where_named named c change))
named-WillBeGood n none c change g h = g
named-WillBeGood n (some id) c change g h = h id

pub settle-WillBeGood :
    (c : Chat) (id : String) → IsChat c → WillBeGood (reads_out c) (quiet (settle c id))
unfolding settle
settle-WillBeGood c id k = quiet-WillBeGood (reads_out c) (settle c id) (settle-IsChat c id k) refl

abbrev pub is_page : UnreadKind → Bool
is_page UnreadKind.page_end = true
is_page _ = false

-- Whether an event answers the read that is out.
abbrev pub answers_read : ServerEvent → Bool
answers_read (ServerEvent.history_page _) = true
answers_read (ServerEvent.unreadable u) = is_page (unread_kind u.kind)
answers_read _ = false

-- The reads still out once an event has come.
abbrev pub still_out : Chat → Bool → ℕ
still_out c answered = if answered then 0 else reads_out c
